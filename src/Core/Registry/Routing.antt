-- ===== src/Core/Registry/Routing.antt =====
-- A URI reaches the driver that was registered for its scheme, whatever the case of either.
use krystallos.Common.{
  List, [], ◌∷◌, ◌++◌, ◌≡◌, refl, ◌∙◌, sym, ap, inl, inr, some, Bool, true, false, if◌then◌else◌,
  Text, text_eq, text_eq→eq, Bool-cases,
}
use krystallos.Core.Error.{err, unsupported}
use krystallos.Core.Endpoint.{Endpoint, to_lower, separator}
use krystallos.Core.Endpoint.Parse.{IsScheme, parse_lem}
use krystallos.Core.Registry.{
  find, store, Credentials, ConnectionOptions, BackendDriver, BackendRegistry, register, driver_for,
  run, routed, connect_with, empty_registry, no_driver_reason,
}

text_eq_other :
    (k key other : Text)
    → text_eq k key ≡ false
    → text_eq k other ≡ true
    → text_eq key other ≡ false
text_eq_other k key other e o = elim (Bool-cases (text_eq key other)) [
  | inl p ↦ p ∙ sym o ∙ ap (λ t. text_eq k t) (sym (text_eq→eq key other p)) ∙ e
  | inr p ↦ p
]

pub find-store {ℓ} :
    {A : Type ℓ} (key other : Text) (a : A) (m : List (Text × A))
    → find other (store key a m) ≡ (if text_eq key other then some a else find other m)
unfolding find store
find-store key other a [] = refl
find-store key other a ((k, b) ∷ m) = elim (Bool-cases (text_eq k key)) [
  | inl e ↦
      let same : k ≡ key = text_eq→eq k key e in
      elim (Bool-cases (text_eq key other)) [ inl o ↦ rw (e, same, o) | inr o ↦ rw (e, same, o) ]
  | inr e ↦ elim (Bool-cases (text_eq k other)) [
    | inl o ↦ rw (e, o, text_eq_other k key other e o)
    | inr o ↦ rw (e, o, find-store key other a m)
  ]
]

module _ {W B : Type 0} (r : BackendRegistry W B) (d : BackendDriver W B) where
  -- `register` returns the driver that the scheme had, and from then on the scheme, in any case, has
  -- the new one, while every other scheme keeps its driver.
  pub register_lem :
      let (displaced, after) = register r d in
      (displaced ≡ driver_for r d.scheme)
      × ((scheme : Text)
          → driver_for after scheme ≡ (
              if text_eq (to_lower d.scheme) (to_lower scheme)
              then some d
              else driver_for r scheme))
  unfolding register driver_for
  register_lem = (refl, λ scheme. find-store (to_lower d.scheme) (to_lower scheme) d r.drivers)

-- A URI with a valid scheme, in any case, runs the driver that the registry has for that scheme.
connect_with-run :
    {W B : Type 0} (r : BackendRegistry W B) (w : W) (s rest : Text) (c : Credentials)
    (options : ConnectionOptions)
    → IsScheme s
    → connect_with r w (s ++ (separator ++ rest)) c options
      ≡ run w
          (record {
            scheme = to_lower s;
            authority_and_path = rest;
            raw = s ++ (separator ++ rest);
          })
          c
          options
          (driver_for r s)
unfolding connect_with driver_for
connect_with-run r w s rest c options h = ap (routed r w c options) (parse_lem s rest h)

-- Behind a `register`, a URI whose scheme is valid and is the driver's, in any case, is handed to that
-- driver as the endpoint that it stands for; a URI of another valid scheme connects as it did before.
pub connect_with-register :
    {W B : Type 0} (r : BackendRegistry W B) (d : BackendDriver W B) (w : W) (s rest : Text)
    (c : Credentials) (options : ConnectionOptions)
    → IsScheme s
    → connect_with (register r d).1 w (s ++ (separator ++ rest)) c options ≡ (
        if text_eq (to_lower d.scheme) (to_lower s)
        then d.connect w
            (record {
              scheme = to_lower s;
              authority_and_path = rest;
              raw = s ++ (separator ++ rest);
            })
            c
            options
        else connect_with r w (s ++ (separator ++ rest)) c options)
connect_with-register r d w s rest c options h =
    connect_with-run (register r d).1 w s rest c options h
    ∙ ap (run w e c options) ((register_lem r d).1 s)
    ∙ by_case (text_eq (to_lower d.scheme) (to_lower s))
  where
    e : Endpoint
    e = record { scheme = to_lower s; authority_and_path = rest; raw = s ++ (separator ++ rest) }

    by_case :
        (b : Bool)
        → run w e c options (if b then some d else driver_for r s) ≡ (
            if b
            then d.connect w e c options
            else connect_with r w (s ++ (separator ++ rest)) c options)
    by_case true = refl
    by_case false = sym (connect_with-run r w s rest c options h)

-- A registry without drivers refuses every URI of a valid scheme.
pub connect_with-empty :
    {W B : Type 0} (w : W) (s rest : Text) (c : Credentials) (options : ConnectionOptions)
    → IsScheme s
    → connect_with (empty_registry {W = W} {B = B}) w (s ++ (separator ++ rest)) c options
      ≡ (err (unsupported no_driver_reason), w)
unfolding driver_for find
connect_with-empty w s rest c options h = connect_with-run empty_registry w s rest c options h
