-- ===== src/Core/Endpoint/Parse.antt =====
-- What `Endpoint::parse` accepts, and what it makes of it.
use krystallos.Common.{
  ℕ, [], ◌∷◌, ◌++◌, ◌≡◌, refl, ap, Option, none, some, inl, inr, true, false, Bool-cases, Text,
  null, arith, starts_with, drop, length,
}
use krystallos.Core.Error.{Result, ok, err}
use krystallos.Core.Endpoint.{
  Endpoint, longer, split_once, is_scheme_byte, every, to_lower, separator, of_parts, parse,
}

-- A scheme: a byte at least, and only the bytes that a scheme may have.
pub record IsScheme (s : Text) : Type 0 where
  pub nonempty : null s ≡ false
  pub valid : every is_scheme_byte s ≡ true

-- No byte of a scheme is the colon that the separator starts with.
split_once-scheme :
    (s rest : Text)
    → every is_scheme_byte s ≡ true
    → split_once separator (s ++ (separator ++ rest)) ≡ some (s, rest)
unfolding split_once every
split_once-scheme [] rest h = refl
split_once-scheme (c ∷ s) rest h = ground (arith, split_once-scheme s rest)

-- A scheme, the separator and any text behind it are an endpoint with the scheme in lower case, that
-- text, and the whole as it was written.
pub parse_lem :
    (s rest : Text)
    → IsScheme s
    → parse (s ++ (separator ++ rest))
      ≡ ok (record {
        scheme = to_lower s;
        authority_and_path = rest;
        raw = s ++ (separator ++ rest);
      })
unfolding parse of_parts
parse_lem s rest h = rw (split_once-scheme s rest h.valid, h.nonempty, h.valid)

starts_with_lem : (p s : Text) → starts_with p s ≡ true → s ≡ p ++ drop (length p) s
starts_with_lem [] s h = refl
starts_with_lem (c ∷ p) [] h = cc
starts_with_lem (c ∷ p) (d ∷ s) h = ground (arith, starts_with_lem p s)

-- The pieces of a cut are the text around the pattern.
abbrev Around : Text → Text → Option (Text × Text) → Type 0
Around p s none = Unit
Around p s (some (before, behind)) = s ≡ before ++ (p ++ behind)

Around-longer :
    (p s : Text) (c : ℕ) (o : Option (Text × Text)) → Around p s o → Around p (c ∷ s) (longer c o)
Around-longer p s c none h = tt
Around-longer p s c (some (before, behind)) h = ap (λ t. c ∷ t) h

split_once-Around : (p s : Text) → Around p s (split_once p s)
unfolding split_once
split_once-Around p [] = tt
split_once-Around p (c ∷ s) = elim (Bool-cases (starts_with p (c ∷ s))) [
  | inl e ↦ rw e (starts_with_lem p (c ∷ s) e)
  | inr e ↦ rw e (Around-longer p s c (split_once p s) (split_once-Around p s))
]

-- The endpoint says what stands on either side of the separator.
abbrev pub Says : Text → Endpoint → Type 0
Says uri e =
    (s : Text) × IsScheme s
    × (uri ≡ s ++ (separator ++ e.authority_and_path))
    × (e.scheme ≡ to_lower s)
    × (e.raw ≡ uri)

abbrev Sound : Text → Result Endpoint → Type 0
Sound uri (err e) = Unit
Sound uri (ok e) = Says uri e

of_parts-Sound :
    (uri : Text) (o : Option (Text × Text)) → Around separator uri o → Sound uri (of_parts uri o)
unfolding of_parts
of_parts-Sound uri none h = tt
of_parts-Sound uri (some (s, rest)) h = elim (Bool-cases (null s)) [
  | inl n ↦ rw n tt
  | inr n ↦ elim (Bool-cases (every is_scheme_byte s)) [
    | inl v ↦ rw (n, v) (s, record { nonempty = n; valid = v }, h, refl, refl)
    | inr v ↦ rw (n, v) tt
  ]
]

parse-Sound : (uri : Text) → Sound uri (parse uri)
unfolding parse
parse-Sound uri = of_parts-Sound uri (split_once separator uri) (split_once-Around separator uri)

-- An endpoint that `parse` returns stands for its text: a scheme, which the endpoint has in lower
-- case, the separator, and the text behind it; so nothing of the URI is lost but the case.
pub parse-Says : (uri : Text) {e : Endpoint} → parse uri ≡ ok e → Says uri e
parse-Says uri h = rw h at (parse-Sound uri)
