-- ===== src/Local/Driver/Uri.antt =====
-- The URI of a root names that root.
use krystallos.Common.{
  [], ◌∷◌, ◌++◌, ◌≡◌, refl, ap, ◌∙◌, Bool, true, false, ◌==◌, Text, codes, All, if_false, null,
}
use krystallos.Core.Error.{Result, ok, ◌>>=◌}
use krystallos.Core.Endpoint
use krystallos.Core.Endpoint.{Endpoint, every, is_scheme_byte, to_lower}
use krystallos.Core.Endpoint.Parse.{IsScheme, parse_lem}
use krystallos.Local.Driver.{looks_like_drive_path, parse_root, forward, is_absolute, uri_for}

-- No backslash stands in the text.
abbrev pub NoBackslash : Text → Type 0
NoBackslash = All (λ c. (c == 0x5c) ≡ false)

forward_id : (s : Text) → NoBackslash s → forward s ≡ s
unfolding forward
forward_id [] h = refl
forward_id (c ∷ s) h = rw (h.0, forward_id s h.1)

file-IsScheme : IsScheme (codes "file")
unfolding every
file-IsScheme = record { nonempty = refl; valid = refl }

-- `connect` of the driver, up to the file system.
abbrev pub root_of : Bool → Text → Result Text
root_of windows uri = Endpoint.parse uri >>= λ e. parse_root windows e.authority_and_path

parse-file :
    (rest : Text)
    → Endpoint.parse (codes "file://" ++ rest)
      ≡ ok (record {
        scheme = to_lower (codes "file");
        authority_and_path = rest;
        raw = codes "file://" ++ rest;
      })
parse-file rest = parse_lem (codes "file") rest file-IsScheme

uri_for-absolute :
    (root : Text)
    → NoBackslash root
    → is_absolute root ≡ true
    → uri_for root ≡ codes "file://" ++ root
unfolding uri_for
uri_for-absolute root h a = rw (forward_id root h, a)

null-absolute : (root : Text) → is_absolute root ≡ true → null root ≡ false
null-absolute [] a = cc
null-absolute (c ∷ s) a = refl

-- On unix the driver makes of the URI of an absolute root without a backslash that root again.
pub root_of-uri_for :
    (root : Text)
    → is_absolute root ≡ true
    → NoBackslash root
    → root_of false (uri_for root) ≡ ok root
unfolding parse_root
root_of-uri_for root a h =
    ap (λ uri. root_of false uri) (uri_for-absolute root h a)
    ∙ ap (λ e. e >>= λ e. parse_root false e.authority_and_path) (parse-file root)
    ∙ if_false _ _ (null-absolute root a)

-- On windows the driver makes of the URI of a root on a drive that root again, with forward slashes.
pub root_of-uri_for_drive :
    (root : Text)
    → is_absolute (forward root) ≡ false
    → looks_like_drive_path (b'/' ∷ forward root) ≡ true
    → root_of true (uri_for root) ≡ ok (forward root)
unfolding parse_root uri_for
root_of-uri_for_drive root a d = rw (a, parse-file (b'/' ∷ forward root), d)
