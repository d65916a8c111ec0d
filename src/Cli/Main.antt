-- ===== src/Cli/Main.antt =====
-- crates/krystallos-cli/src/main.rs: the registry of the command line, and its subcommands. The arguments
-- come parsed; a failure of `println!` is a panic, and left out.
pub mod Routes
pub mod Reached
pub mod Hosted
pub mod OverSmb
pub mod PutOverSmb
mod Tests
use krystallos.Common.{
  ℕ, zero, suc, ◌-◌, List, [], ◌∷◌, ◌++◌, Option, none, some, Bool, true, false, if◌then◌else◌,
  Text, codes, length,
}
use krystallos.Core.Error.{Error, IoKind, Result, ok, err, io, display}
use krystallos.Core.Backend.{StorageBackend}
use krystallos.Core.Run.{Run}
use krystallos.Core.Registry.{
  BackendDriver, BackendRegistry, Credentials, ConnectionOptions, empty_registry, register,
  driver_for, schemes, no_options, set_option,
}
use krystallos.Smb.Driver.{opt_seal}
use krystallos.Cli.Format.{spaces}
use krystallos.Cli.Commands
use krystallos.Cli.Commands.{Host, Work}

pub data Command : Type 0 where
  schemes_list : Command
  ls : Text → Text → Command
  stat : Text → Text → Command
  cat : Text → Text → Command
  get : Text → Text → Text → Command
  put : Text → Text → Text → Command
  mkdir : Text → Text → Command
  rm : Text → Text → Command
  rmdir : Text → Text → Command
  mv : Text → Text → Text → Command

pub record Cli : Type 0 where
  pub user : Option Text
  pub password : Option Text
  pub domain : Option Text
  pub smb_seal : Bool
  pub read_ahead : ℕ
  pub chunk : ℕ
  pub command : Command

abbrev pub credentials_of : Cli → Credentials
credentials_of cli = record { username = cli.user; password = cli.password; domain = cli.domain }

unfoldable pub options_of : Cli → ConnectionOptions
unfolding set_option
options_of cli = if cli.smb_seal then set_option no_options opt_seal (codes "true") else no_options

-- `registry`: the local driver, then the SMB driver.
abbrev pub registry : {W B : Type 0} → BackendDriver W B → BackendDriver W B → BackendRegistry W B
registry local smb = (register (register empty_registry local).1 smb).1

-- `{:<8}`.
unfoldable pub pad_right : ℕ → Text → Text
pad_right width s = s ++ spaces (width - length s)

module _ {W : Type 0} (host : Host W) (reg : BackendRegistry W (StorageBackend W)) where
  abbrev pub description_of : Option (BackendDriver W (StorageBackend W)) → Text
  description_of none = []
  description_of (some d) = d.description

  unfoldable pub print_schemes : List Text → W → W
  unfolding pad_right
  print_schemes [] w = w
  print_schemes (s ∷ ss) w =
      print_schemes ss
        (host.print (pad_right 8 s ++ (b' ' ∷ (description_of (driver_for reg s) ++ b'\n' ∷ [])))
          w).1

  -- The `match` of `run`; the fuel is that of the loops.
  unfoldable pub dispatch : ℕ → ℕ → Cli → Command → Work W
  unfolding options_of schemes
  dispatch m fuel cli schemes_list w = some (ok tt, print_schemes (schemes reg) w)
  dispatch m fuel cli (ls uri path) w =
      Commands.ls host reg (credentials_of cli) (options_of cli) uri path w
  dispatch m fuel cli (stat uri path) w =
      Commands.stat host reg (credentials_of cli) (options_of cli) uri path w
  dispatch m fuel cli (cat uri path) w =
      Commands.cat host reg (credentials_of cli) (options_of cli) m cli.read_ahead cli.chunk fuel
        uri path w
  dispatch m fuel cli (get uri path dest) w =
      Commands.get host reg (credentials_of cli) (options_of cli) m cli.read_ahead cli.chunk fuel
        uri path dest w
  dispatch m fuel cli (put uri path src) w =
      Commands.put host reg (credentials_of cli) (options_of cli) fuel uri path src w
  dispatch m fuel cli (mkdir uri path) w =
      Commands.mkdir host reg (credentials_of cli) (options_of cli) uri path w
  dispatch m fuel cli (rm uri path) w =
      Commands.rm host reg (credentials_of cli) (options_of cli) uri path w
  dispatch m fuel cli (rmdir uri path) w =
      Commands.rmdir host reg (credentials_of cli) (options_of cli) uri path w
  dispatch m fuel cli (mv uri from to) w =
      Commands.mv host reg (credentials_of cli) (options_of cli) uri from to w

  unfoldable pub run : ℕ → ℕ → Cli → Work W
  run m fuel cli = dispatch m fuel cli cli.command

pub data ExitCode : Type 0 where
  success : ExitCode
  failure : ExitCode

-- The end of `main`: a failure is told on standard error with what caused it. A line that is printed
-- there, the `Display` of a `std::io::Error` and its chain of sources are parameters; no other variant has a source.
module _ {W : Type 0} (print_error : Text → W → W) (io_text : IoKind → Text)
    (io_sources : IoKind → List Text) where
  abbrev pub sources_of : Error → List Text
  sources_of (io kind) = io_sources kind
  sources_of _ = []

  unfoldable pub print_causes : List Text → W → W
  print_causes [] w = w
  print_causes (cause ∷ rest) w = print_causes rest (print_error (codes "  caused by: " ++ cause) w)

  abbrev pub exited : Result (Unit {0}) × W → ExitCode × W
  exited (ok u, w) = (success, w)
  exited (err e, w) =
      (failure, print_causes (sources_of e) (print_error (codes "error: " ++ display io_text e) w))

  -- `none` is fuel of `run` that ran out.
  abbrev pub reported : Option (Result (Unit {0}) × W) → Option (ExitCode × W)
  reported none = none
  reported (some out) = some (exited out)

  -- `main`, behind the parsing of the arguments; `runtime` is the failure of its start.
  unfoldable pub main :
      Host W
      → BackendRegistry W (StorageBackend W)
      → Option IoKind
      → ℕ
      → ℕ
      → Cli
      → W
      → Option (ExitCode × W)
  unfolding run print_causes
  main host reg (some kind) m fuel cli w =
      some (
        failure,
        print_error (codes "error: could not start the async runtime: " ++ io_text kind) w,
      )
  main host reg none m fuel cli w = reported (run host reg m fuel cli w)
