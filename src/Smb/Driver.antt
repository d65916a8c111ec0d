-- ===== src/Smb/Driver.antt =====
-- crates/krystallos-smb/src/backend.rs: `ParsedEndpoint`, and the configuration that `SmbDriver`
-- connects with.
pub mod Label
mod Tests
use krystallos.Common.{
  ℕ, List, [], ◌∷◌, ◌++◌, Option, none, some, Bool, true, false, ◌==◌, if◌then◌else◌, Text, codes,
  null,
}
use krystallos.Core.Error.{Result, ok, err, ◌>>=◌, invalid_path}
use krystallos.Core.Endpoint.{Endpoint, split_once}
use krystallos.Core.Registry.{Credentials, ConnectionOptions, get_bool}

pub record ParsedEndpoint : Type 0 where
  pub server : Text
  pub share : Text
  pub user : Option Text
  pub domain : Option Text

abbrev pub no_share_reason : Text
no_share_reason = codes "an SMB endpoint must name a share, e.g. `smb://host/share`"

abbrev pub empty_share_reason : Text
empty_share_reason = codes "the share name is empty"

abbrev pub empty_server_reason : Text
empty_server_reason = codes "the server name is empty"

-- `rest.split('/').next()`.
unfoldable pub before_slash : Text → Text
before_slash [] = []
before_slash (c ∷ s) = let more = before_slash s in if c == b'/' then [] else c ∷ more

-- An optional part in front of its separator, and what is behind it.
abbrev pub optional_part : Text → Option (Text × Text) → Option Text × Text
optional_part whole none = (none, whole)
optional_part whole (some (part, rest)) = (some part, rest)

-- `filter(|u| !u.is_empty())`.
abbrev pub unless_empty : Option Text → Option Text
unless_empty none = none
unless_empty (some []) = none
unless_empty (some (c ∷ s)) = some (c ∷ s)

abbrev pub with_authority : Text → Text → Text → Result ParsedEndpoint
with_authority whole share authority =
    let (domain, rest) = optional_part authority (split_once (codes ";") authority) in
    let (user, server) = optional_part rest (split_once (codes "@") rest) in
    if null server
    then err (invalid_path whole empty_server_reason)
    else ok (record {
      server = server;
      share = share;
      user = unless_empty user;
      domain = unless_empty domain;
    })

abbrev pub with_share : Text → Option (Text × Text) → Result ParsedEndpoint
with_share whole none = err (invalid_path whole no_share_reason)
with_share whole (some (authority, rest)) =
    let share = before_slash rest in
    if null share
    then err (invalid_path whole empty_share_reason)
    else with_authority whole share authority

unfoldable pub parse : Text → Result ParsedEndpoint
unfolding before_slash
parse whole = with_share whole (split_once (codes "/") whole)

unfoldable pub label : ParsedEndpoint → Text
label p = codes "smb://" ++ (p.server ++ b'/' ∷ p.share)

pub record ConnectConfig : Type 0 where
  pub config_server : Text
  pub config_share : Text
  pub config_user : Option Text
  pub config_password : Option Text
  pub config_domain : Option Text
  pub seal : Bool
  pub timeout_secs : ℕ
  pub config_label : Text

abbrev pub opt_seal : Text
opt_seal = codes "smb.seal"

abbrev pub default_timeout_secs : ℕ
default_timeout_secs = 20

-- `or_else`: the credentials win over the URI.
abbrev pub or_uri : Option Text → Option Text → Option Text
or_uri none named = named
or_uri (some given) named = some given

abbrev pub or_false : Option Bool → Bool
or_false none = false
or_false (some b) = b

abbrev pub config_of : Credentials → ConnectionOptions → ParsedEndpoint → ConnectConfig
config_of c options p = record {
  config_server = p.server;
  config_share = p.share;
  config_user = or_uri c.username p.user;
  config_password = c.password;
  config_domain = or_uri c.domain p.domain;
  seal = or_false (get_bool options opt_seal);
  timeout_secs = default_timeout_secs;
  config_label = label p;
}

-- The first half of `connect`, up to the session.
unfoldable pub connect_config : Endpoint → Credentials → ConnectionOptions → Result ConnectConfig
unfolding parse
connect_config e c options = parse e.authority_and_path >>= λ p. ok (config_of c options p)
