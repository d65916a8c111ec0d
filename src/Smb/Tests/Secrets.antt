-- ===== src/Smb/Tests/Secrets.antt =====
-- A server that looks at no password.
use krystallos.Common.{
  ℕ, ◌+◌, List, [], ◌∷◌, ◌++◌, ◌≡◌, refl, none, some, false, true, Option, Text, codes, pos,
}
use krystallos.Core.Error.{ok, err, invalid_path, IoKind, display}
use krystallos.Core.Endpoint.{Endpoint, split_once}
use krystallos.Core.Registry.{Credentials, no_options, debug_credentials}
use krystallos.Smb.SmbPath.{cstring, show_nul, nul_reason}
use krystallos.Smb.Errors.{windows_errno}
use krystallos.Smb.Operations.{windows_flags}
use krystallos.Smb.Driver.{ParsedEndpoint, parse, before_slash, config_of}
use krystallos.Smb.Connection.{Connector, optional_cstring, drop_context}
use krystallos.Smb.Backend.{World, connect}
use krystallos.Smb.Backend.Secrets.{given, password_hidden, password_shown}
use krystallos.Smb.Tests.{memory, five, a_path}

abbrev open_to_all : Connector (List ℕ) ℕ
open_to_all = record {
  start_sockets = λ g. (none, g);
  spawn = λ g. (none, g);
  init_context = λ g. (some five, g + 1);
  destroy_context = λ c g. g + 10;
  set_user = λ s c. c;
  set_password = λ s c. c;
  set_domain = λ s c. c;
  set_seal = λ b c. c;
  set_timeout = λ n c. c;
  connect_share = λ server share user c. (pos 0, c);
  disconnect_share = λ c. c;
  max_read_size = λ c. 2;
  max_write_size = λ c. 2;
  dialect = λ c. 0x0311;
}

abbrev films : Endpoint
films = record {
  scheme = codes "smb";
  authority_and_path = codes "nas/films";
  raw = codes "smb://nas/films";
}

abbrev parsed_films : ParsedEndpoint
parsed_films = record { server = codes "nas"; share = codes "films"; user = none; domain = none }

abbrev somebody : Credentials
somebody = record { username = some (codes "u"); password = none; domain = none }

abbrev world : World (List ℕ) ℕ
world = record {
  outside = 0;
  sessions = λ n. record {
    actor = record { ctx = []; files = record { handles = []; next_id = 0 } };
    alive = false;
    max_read_size = 0;
    max_write_size = 0;
    dialect = 0x0311;
  };
  next_session = 0;
  files = λ k. record { id = 0; len = 0; closed = true; path = a_path };
  next_file = 0;
}

-- `Debug` of an optional text, less its quotes.
abbrev shown : Option Text → Text
shown none = codes "None"
shown (some s) = codes "Some(" ++ (s ++ codes ")")

films-parses : parse films.authority_and_path ≡ ok parsed_films
unfolding parse before_slash split_once
films-parses = refl

somebody-cstring :
    optional_cstring (config_of somebody no_options parsed_films).config_user
    ≡ ok (some (codes "u"))
unfolding cstring
somebody-cstring = refl

password_hidden_example :
    (debug_credentials shown (given somebody (codes "a"))
      ≡ debug_credentials shown (given somebody (codes "b")))
    × (connect open_to_all memory windows_errno windows_flags films
          (given somebody (codes "a"))
          no_options
          world
        ≡ connect open_to_all memory windows_errno windows_flags films
            (given somebody (codes "b"))
            no_options
            world)
password_hidden_example =
    password_hidden open_to_all memory windows_errno windows_flags (codes "a") (codes "b")
      (λ c. refl) refl refl shown films somebody no_options world

password_shown_example :
    let failure = invalid_path (show_nul (b'a' ∷ 0 ∷ [])) nul_reason in
    (connect open_to_all memory windows_errno windows_flags films
        (given somebody (b'a' ∷ 0 ∷ []))
        no_options
        world
      ≡ (
        err failure,
        record world { outside = drop_context open_to_all memory windows_errno five 1 },
      ))
    × ((io_text : IoKind → Text)
        → display io_text failure
          ≡ codes "path not representable on this backend: "
            ++ (show_nul (b'a' ∷ 0 ∷ []) ++ codes " (contains an interior NUL byte)"))
password_shown_example =
    password_shown open_to_all memory windows_errno windows_flags (b'a' ∷ 0 ∷ []) (some (codes "u"))
      parsed_films films somebody no_options world 0 0 1 five refl films-parses somebody-cstring
      refl refl refl
