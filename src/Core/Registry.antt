-- ===== src/Core/Registry.antt =====
-- crates/krystallos-core/src/registry.rs: `ConnectionOptions`, `Credentials`, `BackendDriver` and
-- `BackendRegistry`. A map is an association list with one entry for a key.
pub mod Routing
use krystallos.Common.{
  ℕ, List, [], ◌∷◌, ◌++◌, Option, none, some, Bool, true, false, ◌||◌, if◌then◌else◌, Text, codes,
  text_eq, trim_start, trim_end, null, length,
}
use krystallos.Core.Error.{Result, ok, err, unsupported}
use krystallos.Core.Entry.Sorting.{text_leb}
use krystallos.Core.Endpoint.{Endpoint, to_lower, parse}

unfoldable pub find {ℓ} : {A : Type ℓ} → Text → List (Text × A) → Option A
find key [] = none
find key ((k, a) ∷ m) = let later = find key m in if text_eq k key then some a else later

-- `insert` of a map: the value of a key that is there is replaced.
unfoldable pub store {ℓ} : {A : Type ℓ} → Text → A → List (Text × A) → List (Text × A)
store key a [] = (key, a) ∷ []
store key a ((k, b) ∷ m) =
    let later = store key a m in if text_eq k key then (k, a) ∷ m else (k, b) ∷ later

pub record ConnectionOptions : Type 0 where
  pub settings : List (Text × Text)

abbrev pub no_options : ConnectionOptions
no_options = record { settings = [] }

unfoldable pub set_option : ConnectionOptions → Text → Text → ConnectionOptions
unfolding store
set_option options key value = record { settings = store key value options.settings }

-- The builder form.
abbrev pub with : ConnectionOptions → Text → Text → ConnectionOptions
with options key value = set_option options key value

abbrev pub options_is_empty : ConnectionOptions → Bool
options_is_empty options = null options.settings

unfoldable pub get_option : ConnectionOptions → Text → Option Text
unfolding find
get_option options key = find key options.settings

-- A word that is neither, a typing error say, is as if the key were absent.
abbrev pub bool_of : Text → Option Bool
bool_of s =
    if text_eq s (codes "1")
      || text_eq s (codes "true")
      || text_eq s (codes "yes")
      || text_eq s (codes "on")
    then some true
    else if text_eq s (codes "0")
        || text_eq s (codes "false")
        || text_eq s (codes "no")
        || text_eq s (codes "off")
    then some false
    else none

abbrev pub bool_setting : Option Text → Option Bool
bool_setting none = none
bool_setting (some value) = bool_of (to_lower (trim_end (trim_start value)))

abbrev pub get_bool : ConnectionOptions → Text → Option Bool
get_bool options key = bool_setting (get_option options key)

pub record Credentials : Type 0 where
  pub username : Option Text
  pub password : Option Text
  pub domain : Option Text

abbrev pub anonymous : Credentials
anonymous = record { username = none; password = none; domain = none }

abbrev pub user_password : Text → Text → Credentials
user_password username password = record {
  username = some username;
  password = some password;
  domain = none;
}

abbrev pub with_domain : Credentials → Text → Credentials
with_domain c domain = record c { domain = some domain }

-- `as_ref().map(|_| "<redacted>")`.
abbrev pub redacted : Option Text → Option Text
redacted none = none
redacted (some password) = some (codes "<redacted>")

-- `impl Debug for Credentials`; `debug` is that of an optional text.
unfoldable pub debug_credentials : (Option Text → Text) → Credentials → Text
debug_credentials debug c =
    codes "Credentials { username: "
    ++ (debug c.username
        ++ (codes ", password: "
            ++ (debug (redacted c.password)
                ++ (codes ", domain: " ++ (debug c.domain ++ codes " }")))))

-- `connect` runs in a world `W` and gives a backend `B`.
pub record BackendDriver (W B : Type 0) : Type 0 where
  pub scheme : Text
  pub description : Text
  pub connect : W → Endpoint → Credentials → ConnectionOptions → Result B × W

pub record BackendRegistry (W B : Type 0) : Type 0 where
  pub drivers : List (Text × BackendDriver W B)

abbrev pub no_driver_reason : Text
no_driver_reason = codes "connect: no driver registered for this scheme"

unfoldable pub insert_text : Text → List Text → List Text
unfolding text_leb
insert_text s [] = s ∷ []
insert_text s (t ∷ ts) =
    let rest = insert_text s ts in if text_leb s t then s ∷ t ∷ ts else t ∷ rest

unfoldable pub sort_texts : List Text → List Text
unfolding insert_text
sort_texts [] = []
sort_texts (s ∷ ss) = insert_text s (sort_texts ss)

module _ {W B : Type 0} where
  abbrev pub empty_registry : BackendRegistry W B
  empty_registry = record { drivers = [] }

  -- The driver that was there before comes back.
  pub register :
      BackendRegistry W B → BackendDriver W B → Option (BackendDriver W B) × BackendRegistry W B
  unfolding store find
  register r d = (
    find (to_lower d.scheme) r.drivers,
    record { drivers = store (to_lower d.scheme) d r.drivers },
  )

  pub driver_for : BackendRegistry W B → Text → Option (BackendDriver W B)
  unfolding find
  driver_for r scheme = find (to_lower scheme) r.drivers

  abbrev pub is_empty : BackendRegistry W B → Bool
  is_empty r = null r.drivers

  abbrev pub len : BackendRegistry W B → ℕ
  len r = length r.drivers

  -- `keys`, and `sort_unstable`: the keys are different.
  abbrev pub keys : List (Text × BackendDriver W B) → List Text
  keys [] = []
  keys ((k, d) ∷ m) = k ∷ keys m

  unfoldable pub schemes : BackendRegistry W B → List Text
  unfolding sort_texts
  schemes r = sort_texts (keys r.drivers)

  abbrev pub run :
      W → Endpoint → Credentials → ConnectionOptions → Option (BackendDriver W B) → Result B × W
  run w e c options none = (err (unsupported no_driver_reason), w)
  run w e c options (some d) = d.connect w e c options

  abbrev pub routed :
      BackendRegistry W B → W → Credentials → ConnectionOptions → Result Endpoint → Result B × W
  routed r w c options (err e) = (err e, w)
  routed r w c options (ok e) = run w e c options (find e.scheme r.drivers)

  pub connect_with : BackendRegistry W B → W → Text → Credentials → ConnectionOptions → Result B × W
  unfolding find
  connect_with r w uri c options = routed r w c options (parse uri)

  pub connect : BackendRegistry W B → W → Text → Credentials → Result B × W
  unfolding connect_with
  connect r w uri c = connect_with r w uri c no_options
