-- ===== src/Cli/Main/Routes.antt =====
-- Where the command line connects to.
use krystallos.Common.{◌++◌, ◌≡◌, refl, if◌then◌else◌, Text, codes, text_eq}
use krystallos.Core.Error.{err, unsupported}
use krystallos.Core.Endpoint.{Endpoint, separator, to_lower}
use krystallos.Core.Endpoint.Parse.{IsScheme}
use krystallos.Core.Registry.{
  BackendDriver, Credentials, ConnectionOptions, empty_registry, register, connect_with,
  no_driver_reason,
}
use krystallos.Core.Registry.Routing.{connect_with-register, connect_with-empty}
use krystallos.Cli.Main.{registry}

abbrev pub endpoint : Text → Text → Endpoint
endpoint s rest = record {
  scheme = to_lower s;
  authority_and_path = rest;
  raw = s ++ (separator ++ rest);
}

-- A URI of a valid scheme goes to the SMB driver exactly if the scheme is `smb`, in any case, and to the
-- local driver exactly if it is `file`, as the endpoint that it stands for; of any other it fails as
-- unsupported, and nothing runs. The drivers are those of the schemes that are named so.
pub connect_with-registry :
    {W B : Type 0} (local smb : BackendDriver W B)
    → local.scheme ≡ codes "file"
    → smb.scheme ≡ codes "smb"
    → (w : W) (s rest : Text) (c : Credentials) (options : ConnectionOptions) → IsScheme s
    → let e = endpoint s rest in
      connect_with (registry local smb) w (s ++ (separator ++ rest)) c options ≡ (
        if text_eq (codes "smb") (to_lower s)
        then smb.connect w e c options
        else if text_eq (codes "file") (to_lower s)
        then local.connect w e c options
        else (err (unsupported no_driver_reason), w))
unfolding to_lower
connect_with-registry {W = W} {B = B} local smb p q w s rest c options h =
    rw
      (
        connect_with-register (register empty_registry local).1 smb w s rest c options h,
        connect_with-register empty_registry local w s rest c options h,
        connect_with-empty {W = W} {B = B} w s rest c options h,
        p,
        q,
      )
      refl
