-- ===== src/Smb/Backend/Secrets.antt =====
-- What becomes of the password that a connect is given.
use krystallos.Common.{
  ◌≡◌, refl, ap, ◌∙◌, true, false, none, some, Text, Option, member, codes, ◌++◌,
}
use krystallos.Core.Error.{Result, ok, err, invalid_path, ◌>>=◌, IoKind, display}
use krystallos.Core.Endpoint.{Endpoint}
use krystallos.Core.Registry.{Credentials, ConnectionOptions, debug_credentials}
use krystallos.Smb.Libsmb2.{Libsmb2}
use krystallos.Smb.SmbPath.{show_nul, nul_reason}
use krystallos.Smb.Errors.{Errno}
use krystallos.Smb.Operations.{OpenFlags}
use krystallos.Smb.Driver.{ParsedEndpoint, parse, connect_config, config_of}
use krystallos.Smb.Connection.{Connector, optional_cstring, drop_context}
use krystallos.Smb.Connection.Secrets.{connect_session-alike, connect_session_nul}
use krystallos.Smb.Backend.{World, connect, connected, connect_to}

abbrev pub given : Credentials → Text → Credentials
given c p = record c { password = some p }

module _ {C G : Type 0} (x : Connector C G) (f : Libsmb2 C) (errno : Errno) (o : OpenFlags) where
  -- Two passwords without a NUL byte that libsmb2 takes alike make no difference, neither to what `Debug`
  -- prints of the credentials, whatever it prints of a text, nor to what a connect returns, its
  -- errors and the label of the backend included, nor to the world behind it.
  pub password_hidden :
      (p q : Text)
      → ((c : C) → x.set_password p c ≡ x.set_password q c)
      → member 0 p ≡ false
      → member 0 q ≡ false
      → (debug : Option Text → Text) (e : Endpoint) (creds : Credentials)
        (options : ConnectionOptions) (w : World C G)
      → (debug_credentials debug (given creds p) ≡ debug_credentials debug (given creds q))
        × (connect x f errno o e (given creds p) options w
            ≡ connect x f errno o e (given creds q) options w)
  unfolding debug_credentials connect connect_config
  password_hidden p q alike hp hq debug e creds options w =
      (refl, by_parse (parse e.authority_and_path))
    where
      by_parse :
          (r : Result ParsedEndpoint)
          → connect_to x f errno o (r >>= λ t. ok (config_of (given creds p) options t)) w
            ≡ connect_to x f errno o (r >>= λ t. ok (config_of (given creds q) options t)) w
      by_parse (err failure) = refl
      by_parse (ok t) =
          ap (connected x f errno o (config_of creds options t).config_label w)
            (connect_session-alike x f errno p q alike (config_of creds options t) w.outside hp hq)

  -- A password with a NUL byte comes back, with the byte written out, as the path of the error of the connect,
  -- which is an invalid path, and so in the text that is shown for it: where the thread starts, the network is there and libsmb2 gives a context,
  -- the endpoint is valid, and the user has no NUL byte. Of the connect only the drop of the context is left.
  pub password_shown :
      (p : Text) (user : Option Text) (t : ParsedEndpoint) (e : Endpoint) (creds : Credentials)
      (options : ConnectionOptions) (w : World C G) (g1 g2 g3 : G) (c : C)
      → member 0 p ≡ true
      → parse e.authority_and_path ≡ ok t
      → optional_cstring (config_of creds options t).config_user ≡ ok user
      → x.spawn w.outside ≡ (none, g1)
      → x.start_sockets g1 ≡ (none, g2)
      → x.init_context g2 ≡ (some c, g3)
      → let failure = invalid_path (show_nul p) nul_reason in
        (connect x f errno o e (given creds p) options w
          ≡ (err failure, record w { outside = drop_context x f errno c g3 }))
        × ((io_text : IoKind → Text)
            → display io_text failure
              ≡ codes "path not representable on this backend: "
                ++ (show_nul p ++ codes " (contains an interior NUL byte)"))
  unfolding connect connect_config display
  password_shown p user t e creds options w g1 g2 g3 c nul parses named spawns starts allocates =
      let failed =
        connect_session_nul x f errno (config_of creds options t) p user w.outside g1 g2 g3 c nul
          named spawns starts allocates in
      (
        ap (λ r. connect_to x f errno o (r >>= λ t'. ok (config_of (given creds p) options t')) w)
              parses
            ∙ ap (connected x f errno o (config_of creds options t).config_label w) failed,
        λ io_text. refl,
      )
