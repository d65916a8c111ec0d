-- ===== src/Smb/Errors/Classes.antt =====
-- What the classification of libsmb2's failures promises to a caller.
use krystallos.Common.{
  ℕ, [], ◌∷◌, ◌≡◌, refl, Option, none, some, true, ◌==◌, if◌then◌else◌, Text, null, member, if_both,
  ℤ, pos, negsuc, codes, int_eq, is_zero, is_minus_one,
}
use krystallos.Core.Error.{
  Error, not_found, permission_denied, already_exists, not_a_directory, is_a_directory,
  directory_not_empty, invalid_path, connection_lost, backend, is_fatal_to_session,
}
use krystallos.Smb.Errors.{
  Errno, missing, denied, a_directory, rejected, gone, no_support, collision, no_directory,
  not_empty, from_status, from_errno, status_token, status_from_name, from_token, from_rc,
  from_parts, or_else, tap_path,
}

-- An error that names a path names this one.
abbrev pub NamesPath : Text → Error → Type 0
NamesPath path (not_found p) = p ≡ path
NamesPath path (permission_denied p) = p ≡ path
NamesPath path (already_exists p) = p ≡ path
NamesPath path (not_a_directory p) = p ≡ path
NamesPath path (is_a_directory p) = p ≡ path
NamesPath path (directory_not_empty p) = p ≡ path
NamesPath path (invalid_path p r) = ⊥
NamesPath path _ = Unit

abbrev Found : Text → Option Error → Type 0
Found path none = Unit
Found path (some e) = NamesPath path e

from_status-Found :
    (status : ℕ) (message path : Text) → Found path (from_status status message path)
unfolding from_status
from_status-Found status message path = if_both (Found path) (member status missing) _ _ refl (
    if_both (Found path) (member status denied) _ _ refl (
      if_both (Found path) (status == collision) _ _ refl (
        if_both (Found path) (status == no_directory) _ _ refl (
          if_both (Found path) (member status a_directory) _ _ refl (
            if_both (Found path) (status == not_empty) _ _ refl (
              if_both (Found path) (member status rejected) _ _ tt (
                if_both (Found path) (member status gone) _ _ tt
                  (if_both (Found path) (member status no_support) _ _ tt tt))))))))

from_errno-Found :
    (e : Errno) (n : ℤ) (message path : Text) → Found path (from_errno e n message path)
unfolding from_errno
from_errno-Found e n message path = if_both (Found path) (int_eq n (pos e.enoent)) _ _ refl (
    if_both (Found path) (int_eq n (pos e.eacces)) _ _ refl (
      if_both (Found path) (int_eq n (pos e.enotdir)) _ _ refl (
        if_both (Found path) (int_eq n (pos e.eisdir)) _ _ refl (
          if_both (Found path) (int_eq n (pos e.enotempty)) _ _ refl (
            if_both (Found path) (int_eq n (pos e.econnrefused)) _ _ tt
              (if_both (Found path) (int_eq n (pos e.einval)) _ _ tt tt))))))

from_rc-Found : (e : Errno) (rc : ℤ) (message path : Text) → Found path (from_rc e rc message path)
unfolding from_rc
from_rc-Found e rc message path =
    if_both (Found path) (is_zero rc) _ _ tt
      (if_both (Found path) (is_minus_one rc) _ _ tt (from_errno-Found e _ message path))

from_token-Found :
    (message path : Text) (token : Option Text) → Found path (from_token message path token)
from_token-Found message path none = tt
from_token-Found message path (some token) = by_code (status_from_name token)
  where
    by_code :
        (code : Option ℕ)
        → Found path (elim code [ none ↦ none | some c ↦ from_status c message path ])
    by_code none = tt
    by_code (some c) = from_status-Found c message path

or_else-NamesPath :
    (path : Text) (o : Option Error) (e : Error)
    → Found path o
    → NamesPath path e
    → NamesPath path (or_else o e)
or_else-NamesPath path none e h g = g
or_else-NamesPath path (some d) e h g = h

tap_path-backend : (path message : Text) → tap_path path (backend message) ≡ backend message
tap_path-backend [] message = refl
tap_path-backend (c ∷ path) message = refl

-- Whichever channel decides, an error that names a path names the path of the operation, and no
-- failure of libsmb2 is reported as an invalid path.
pub from_parts-NamesPath :
    (e : Errno) (status_text : ℕ → Text) (nterror : ℕ) (rc : ℤ) (message path : Text)
    → NamesPath path (from_parts e status_text nterror rc message path)
unfolding from_parts
from_parts-NamesPath e status_text nterror rc message path =
    or_else-NamesPath path _ _
      (if_both (Found path) (nterror == 0) _ _ tt (from_status-Found nterror message path))
      (or_else-NamesPath path _ _ (from_token-Found message path (status_token message)) (
        or_else-NamesPath path _ _ (from_rc-Found e rc message path)
          (rw (tap_path-backend path _) tt)))

-- A bare -1, with no status in either of the other channels, is a lost connection, never a matter of
-- permissions; and the error ends the session.
pub from_parts_minus_one :
    (e : Errno) (status_text : ℕ → Text) (nterror : ℕ) (message path : Text)
    → from_status nterror message path ≡ none
    → from_token message path (status_token message) ≡ none
    → (from_parts e status_text nterror (negsuc 0) message path
        ≡ connection_lost (if null message then codes "the SMB connection was lost" else message))
      × (is_fatal_to_session (from_parts e status_text nterror (negsuc 0) message path) ≡ true)
unfolding from_parts from_rc is_fatal_to_session
from_parts_minus_one e status_text nterror message path h g = (lost, rw lost)
  where
    silent : (if nterror == 0 then none else from_status nterror message path) ≡ none
    silent = if_both (λ o. o ≡ none) (nterror == 0) none (from_status nterror message path) refl h

    lost :
        from_parts e status_text nterror (negsuc 0) message path
        ≡ connection_lost (if null message then codes "the SMB connection was lost" else message)
    lost = rw (silent, g)
