-- ===== src/Ffi/Types/Seal.antt =====
-- A request for encryption reaches the connection.
use krystallos.Common.{◌≡◌, refl, Bool, true, false, codes, trim_start, trim_end, if◌then◌else◌}
use krystallos.Core.Registry.{get_bool, get_option, set_option, find, store, no_options}
use krystallos.Core.Endpoint.{to_lower}
use krystallos.Smb.Driver.{ParsedEndpoint, config_of, opt_seal, or_uri, or_false}
use krystallos.Ffi.Types.{ConnectRequest, into_parts}

seal_kept :
    (b : Bool)
    → or_false (
        get_bool (if b then set_option no_options opt_seal (codes "true") else no_options) opt_seal)
      ≡ b
unfolding get_option set_option find store to_lower trim_start trim_end
seal_kept true = refl
seal_kept false = refl

-- What a request asks for is what the SMB session is configured with: the encryption exactly if it
-- is asked for, the password as it is, and the user and domain of the request before those of the URI.
pub config_of-into_parts :
    (q : ConnectRequest) (p : ParsedEndpoint)
    → let (uri, credentials, options) = into_parts q in
      let config = config_of credentials options p in
      (uri ≡ q.uri)
      × (config.seal ≡ q.smb_seal)
      × (config.config_password ≡ q.password)
      × (config.config_user ≡ or_uri q.username p.user)
      × (config.config_domain ≡ or_uri q.domain p.domain)
unfolding into_parts
config_of-into_parts q p = (refl, seal_kept q.smb_seal, refl, refl, refl)
