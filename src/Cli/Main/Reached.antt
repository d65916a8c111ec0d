-- ===== src/Cli/Main/Reached.antt =====
-- The share that the arguments name.
use krystallos.Common.{◌++◌, ◌≡◌, refl, ap, ◌∙◌, true, Text, codes, text_eq, if_true}
use krystallos.Core.Error.{ok, ◌>>=◌}
use krystallos.Core.Endpoint.{separator, to_lower}
use krystallos.Core.Endpoint.Parse.{IsScheme}
use krystallos.Core.Backend.{StorageBackend}
use krystallos.Core.Registry.{BackendDriver, connect_with}
use krystallos.Smb.Libsmb2.{Libsmb2}
use krystallos.Smb.Errors.{Errno}
use krystallos.Smb.Operations.{OpenFlags}
use krystallos.Smb.Driver.{ParsedEndpoint, ConnectConfig, parse, connect_config, config_of}
use krystallos.Smb.Connection.{Connector}
use krystallos.Smb.Connection.Reaches.{Reaches}
use krystallos.Smb.Backend.{World, smb_backend, smb_driver, connect, connect_to}
use krystallos.Smb.Backend.Opened.{connect_to-Reaches, with_new_session}
use krystallos.Cli.Main.{Cli, registry, credentials_of, options_of}
use krystallos.Cli.Main.Routes.{connect_with-registry}

-- The URI has the scheme `smb`, in any case, and names a share; the server takes the session that the
-- arguments ask for, whose context is then `context`. The process beside the sessions is `g` in front of
-- this and `g'` behind it.
pub record Reached {C G : Type 0} (x : Connector C G) (f : Libsmb2 C) (errno : Errno) (cli : Cli)
    (uri : Text) (g : G) (context : C) (g' : G) : Type 0 where
  pub scheme : Text
  pub rest : Text
  pub parsed : ParsedEndpoint
  pub whole : uri ≡ scheme ++ (separator ++ rest)
  pub valid : IsScheme scheme
  pub is_smb : text_eq (codes "smb") (to_lower scheme) ≡ true
  pub parses : parse rest ≡ ok parsed
  pub reaches :
      Reaches x f errno (config_of (credentials_of cli) (options_of cli) parsed) g context g'

module _ {C G : Type 0} (x : Connector C G) (f : Libsmb2 C) (errno : Errno) (o : OpenFlags)
    {cli : Cli} {uri : Text} {g : G} {context : C} {g' : G}
    (v : Reached x f errno cli uri g context g') where
  abbrev pub config : ConnectConfig
  config = config_of (credentials_of cli) (options_of cli) v.parsed

  -- The registry of the command line then gives a backend on a new session.
  pub connect_with-Reached :
      (local : BackendDriver (World C G) (StorageBackend (World C G)))
      → local.scheme ≡ codes "file"
      → (w : World C G) → w.outside ≡ g
      → connect_with
          (registry local (smb_driver x f errno o))
          w
          uri
          (credentials_of cli)
          (options_of cli)
        ≡ (
          ok (smb_backend x f errno o config.config_label w.next_session),
          with_new_session x f errno o w context g',
        )
  unfolding connect connect_config
  connect_with-Reached local is_file w here =
      ap
        (λ t.
          connect_with (registry local (smb_driver x f errno o)) w t (credentials_of cli)
            (options_of cli))
        v.whole
      ∙ connect_with-registry local (smb_driver x f errno o) is_file refl w v.scheme v.rest
          (credentials_of cli) (options_of cli) v.valid
      ∙ if_true _ _ v.is_smb
      ∙ ap (λ p. connect_to x f errno o p w)
          (ap (λ r. r >>= λ p. ok (config_of (credentials_of cli) (options_of cli) p)) v.parses)
      ∙ connect_to-Reaches x f errno o config w context g' (rw here v.reaches)
