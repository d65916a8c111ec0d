-- ===== src/Cli/Main/Tests.antt =====
-- Two drivers whose backends are numbers.
pub mod Share
mod Upload
use krystallos.Common.{ℕ, ◌++◌, ◌≡◌, refl, none, if◌then◌else◌, Text, codes, text_eq}
use krystallos.Core.Error.{ok, err, unsupported}
use krystallos.Core.Endpoint.{separator, to_lower, every}
use krystallos.Core.Endpoint.Parse.{IsScheme}
use krystallos.Core.Registry.{
  BackendDriver, Credentials, no_options, connect_with, no_driver_reason,
}
use krystallos.Cli.Main.{registry}
use krystallos.Cli.Main.Routes.{endpoint, connect_with-registry}

abbrev local_driver : BackendDriver ℕ ℕ
local_driver = record {
  scheme = codes "file";
  description = codes "local";
  connect = λ w e c options. (ok 1, w);
}

abbrev smb_driver : BackendDriver ℕ ℕ
smb_driver = record {
  scheme = codes "smb";
  description = codes "share";
  connect = λ w e c options. (ok 2, w);
}

abbrev nobody : Credentials
nobody = record { username = none; password = none; domain = none }

abbrev loud : Text
loud = codes "FILE"

loud-IsScheme : IsScheme loud
unfolding every
loud-IsScheme = record { nonempty = refl; valid = refl }

connect_with-registry_example :
    let e = endpoint loud (codes "/srv") in
    connect_with
      (registry local_driver smb_driver)
      7
      (loud ++ (separator ++ codes "/srv"))
      nobody
      no_options
    ≡ (if text_eq (codes "smb") (to_lower loud)
        then smb_driver.connect 7 e nobody no_options
        else if text_eq (codes "file") (to_lower loud)
        then local_driver.connect 7 e nobody no_options
        else (err (unsupported no_driver_reason), 7))
connect_with-registry_example =
    connect_with-registry local_driver smb_driver refl refl 7 loud (codes "/srv") nobody no_options
      loud-IsScheme
