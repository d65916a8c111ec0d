-- ===== src/Smb/Driver/Label.antt =====
-- The parts of an endpoint, and the label that stands for it.
use krystallos.Common.{
  ℕ, [], ◌∷◌, ◌++◌, ◌≡◌, refl, none, some, true, false, ◌==◌, Text, codes, null, arith, All,
  All-append,
}
use krystallos.Core.Error.{ok}
use krystallos.Core.Endpoint.{Endpoint, longer, split_once, to_lower, every, is_scheme_byte}
use krystallos.Core.Endpoint
use krystallos.Core.Endpoint.Parse.{parse_lem}
use krystallos.Smb.Driver.{ParsedEndpoint, before_slash, unless_empty, parse, label}

-- The byte does not stand in the text.
abbrev pub Without : ℕ → Text → Type 0
Without b = All (λ c. (b == c) ≡ false)

split_once-Without :
    (b : ℕ) (s rest : Text) → Without b s → split_once (b ∷ []) (s ++ b ∷ rest) ≡ some (s, rest)
unfolding split_once
split_once-Without b [] rest h = ground arith
split_once-Without b (c ∷ s) rest h = rw (h.0, split_once-Without b s rest h.1)

split_once-none : (b : ℕ) (s : Text) → Without b s → split_once (b ∷ []) s ≡ none
unfolding split_once
split_once-none b [] h = refl
split_once-none b (c ∷ s) h = rw (h.0, split_once-none b s h.1)

before_slash-Without : (s : Text) → Without b'/' s → before_slash s ≡ s
unfolding before_slash
before_slash-Without [] h = refl
before_slash-Without (c ∷ s) h = ground (arith, before_slash-Without s h.1, h.0)

-- A share that an endpoint can name: a server without the bytes that set off its parts, and one word.
pub record IsShare (server share : Text) : Type 0 where
  pub server_named : null server ≡ false
  pub share_named : null share ≡ false
  pub no_slash : Without b'/' server
  pub no_semicolon : Without b';' server
  pub no_at : Without b'@' server
  pub one_word : Without b'/' share

parse-bare :
    (server share : Text)
    → IsShare server share
    → parse (server ++ b'/' ∷ share)
      ≡ ok (record { server = server; share = share; user = none; domain = none })
unfolding parse
parse-bare server share h = rw (
  split_once-Without b'/' server share h.no_slash,
  before_slash-Without share h.one_word,
  h.share_named,
  split_once-none b';' server h.no_semicolon,
  split_once-none b'@' server h.no_at,
  h.server_named,
)

smb_valid : every is_scheme_byte (codes "smb") ≡ true
unfolding every
smb_valid = refl

-- The label of a share is an endpoint that stands for that share again, with no user or domain.
pub parse-label :
    (p : ParsedEndpoint)
    → IsShare p.server p.share
    → (e : Endpoint) × (Endpoint.parse (label p) ≡ ok e)
      × (parse e.authority_and_path ≡ ok (record p { user = none; domain = none }))
unfolding label
parse-label p h = (
  record {
    scheme = to_lower (codes "smb");
    authority_and_path = p.server ++ b'/' ∷ p.share;
    raw = label p;
  },
  parse_lem (codes "smb") (p.server ++ b'/' ∷ p.share)
      (record { nonempty = refl; valid = smb_valid }),
  parse-bare p.server p.share h,
)

before_slash-word : (s path : Text) → Without b'/' s → before_slash (s ++ b'/' ∷ path) ≡ s
unfolding before_slash
before_slash-word [] path h = refl
before_slash-word (c ∷ s) path h = ground (arith, before_slash-word s path h.1, h.0)

-- An endpoint with every part gives each part back, a user or a domain that is empty as none; what is
-- behind the share is not part of the endpoint.
pub parse-parts :
    (domain user server share path : Text)
    → IsShare server share
    → Without b'/' domain
    → Without b';' domain
    → Without b'/' user
    → Without b'@' user
    → parse ((domain ++ b';' ∷ (user ++ b'@' ∷ server)) ++ b'/' ∷ (share ++ b'/' ∷ path))
      ≡ ok (record {
        server = server;
        share = share;
        user = unless_empty (some user);
        domain = unless_empty (some domain);
      })
unfolding parse
parse-parts domain user server share path h d e u v = rw (
  split_once-Without b'/' (domain ++ b';' ∷ (user ++ b'@' ∷ server)) (share ++ b'/' ∷ path) whole,
  before_slash-word share path h.one_word,
  h.share_named,
  split_once-Without b';' domain (user ++ b'@' ∷ server) e,
  split_once-Without b'@' user server v,
  h.server_named,
)
  where
    whole : Without b'/' (domain ++ b';' ∷ (user ++ b'@' ∷ server))
    whole =
        All-append (λ c. (b'/' == c) ≡ false) domain (b';' ∷ (user ++ b'@' ∷ server)) d
          (refl, All-append (λ c. (b'/' == c) ≡ false) user (b'@' ∷ server) u (refl, h.no_slash))
