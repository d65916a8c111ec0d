-- ===== src/Cli/Main/Tests/Share.antt =====
-- A share of one file in memory, and a terminal that keeps what is written to it.
use krystallos.Common.{
  ℕ, ◌∷◌, [], List, ◌++◌, ◌≡◌, refl, some, none, false, true, Text, codes, pos, u64_mod, arith, ap,
  text_eq, All,
}
use krystallos.Core.Error.{ok, err, unsupported}
use krystallos.Core.VfsPath.{new}
use krystallos.Core.VfsPath.Normal.{IsSegment, new-of_segments, segments-of_segments}
use krystallos.Core.Entry.{is_dir_kind}
use krystallos.Core.Endpoint.Parse.{IsScheme}
use krystallos.Core.Endpoint.{separator, every, to_lower, split_once}
use krystallos.Core.Backend.{StorageBackend}
use krystallos.Core.Registry.{BackendDriver}
use krystallos.Core.FileHandle.Memory.{Never}
use krystallos.Smb.SmbPath.{to_smb_path, cstring}
use krystallos.Smb.Errors.{windows_errno}
use krystallos.Smb.Operations.{windows_flags, kind_of}
use krystallos.Smb.Driver.{ParsedEndpoint, before_slash, parse, config_of}
use krystallos.Smb.Connection.{Connector, Strings, configured, strings_of}
use krystallos.Smb.Backend.{World, smb_driver}
use krystallos.Smb.Tests.{memory, five, Has, memory-Preads, a_path, no_stat}
use krystallos.Cli.Commands.{Host}
use krystallos.Cli.Commands.Streamed.{Printed}
use krystallos.Cli.Main.{Cli, cat, registry, run, credentials_of, options_of}
use krystallos.Cli.Main.Reached.{Reached}
use krystallos.Cli.Main.Hosted.{hosted, Documented}
use krystallos.Cli.Main.OverSmb.{Names, run-OverSmb}

abbrev pub connector : Connector (List ℕ) (List ℕ)
connector = record {
  start_sockets = λ g. (none, g);
  spawn = λ g. (none, g);
  init_context = λ g. (some five, g);
  destroy_context = λ c g. g;
  set_user = λ s c. c;
  set_password = λ s c. c;
  set_domain = λ s c. c;
  set_seal = λ b c. c;
  set_timeout = λ n c. c;
  connect_share = λ server share user c. (pos 0, c);
  disconnect_share = λ c. c;
  max_read_size = λ c. 2;
  max_write_size = λ c. 2;
  dialect = λ c. 0x0311;
}

abbrev pub terminal : Host (List ℕ)
terminal = record {
  print = λ s g. (ok tt, g ++ s);
  write_out = λ bytes g. (ok tt, g ++ bytes);
  flush_out = λ g. (ok tt, g);
  create_file = λ path g. (ok 3, g);
  write_file = λ n bytes g. (ok tt, g);
  flush_file = λ n g. (ok tt, g);
  open_source = λ path g. (ok 4, g);
  source_len = λ n g. (ok 0, g);
  read_source = λ n len g. (ok [], g);
  rfc3339 = λ t. [];
}

abbrev Out : List ℕ → List ℕ → Type 0
Out g written = g ≡ written

memory-Documented : Documented connector memory windows_errno windows_flags terminal Has Out Never
memory-Documented = record {
  preads = memory-Preads;
  closes = λ c id handle. tt;
  prints = λ g written bytes e. ap (λ l. l ++ bytes) e;
  flushes = λ g written e. e;
  destroys = λ c g written e. e;
}

abbrev pub SmbWorld : Type 0
SmbWorld = World (List ℕ) (List ℕ)

abbrev pub local : BackendDriver SmbWorld (StorageBackend SmbWorld)
local = record {
  scheme = codes "file";
  description = codes "local";
  connect = λ w e c options. (err (unsupported []), w);
}

abbrev pub uri : Text
uri = codes "SMB" ++ (separator ++ codes "nas/films")

abbrev pub cli : Cli
cli = record {
  user = some (codes "u");
  password = none;
  domain = none;
  smb_seal = true;
  read_ahead = 4;
  chunk = 3;
  command = cat uri a_path.raw;
}

abbrev pub world : SmbWorld
world = record {
  outside = 9 ∷ [];
  sessions = λ n. record {
    actor = record { ctx = []; files = record { handles = []; next_id = 0 } };
    alive = false;
    max_read_size = 0;
    max_write_size = 0;
    dialect = 0x0311;
  };
  next_session = 0;
  files = λ n. record { id = 0; len = 0; closed = true; path = a_path };
  next_file = 0;
}

pub smb-IsScheme : IsScheme (codes "SMB")
unfolding every
smb-IsScheme = record { nonempty = refl; valid = refl }

pub is_smb : text_eq (codes "smb") (to_lower (codes "SMB")) ≡ true
unfolding to_lower
is_smb = refl

abbrev pub film : ParsedEndpoint
film = record { server = codes "nas"; share = codes "films"; user = none; domain = none }

pub parsed : parse (codes "nas/films") ≡ ok film
unfolding parse before_slash split_once
parsed = refl

a-IsSegment : All IsSegment (codes "a" ∷ [])
a-IsSegment = (record { ordinary = refl; stays = refl; free = (refl, tt) }, tt)

pub named : new a_path.raw ≡ ok a_path
named = new-of_segments (codes "a" ∷ []) a-IsSegment

abbrev pub strings : Strings
strings = record {
  user = some (codes "u");
  password = none;
  domain = none;
  server = codes "nas";
  share = codes "films";
}

pub texts : strings_of (config_of (credentials_of cli) (options_of cli) film) ≡ ok strings
unfolding strings_of cstring
texts = refl

pub speakable : cstring (to_smb_path a_path) ≡ ok (to_smb_path a_path)
unfolding cstring to_smb_path
speakable = rw (segments-of_segments (codes "a" ∷ []) a-IsSegment) refl

no_directory : is_dir_kind (kind_of no_stat.smb2_type) ≡ false
unfolding kind_of
no_directory = refl

film-Reached : Reached connector memory windows_errno cli uri (9 ∷ []) five (9 ∷ [])
unfolding configured
film-Reached = record {
  scheme = codes "SMB";
  rest = codes "nas/films";
  parsed = film;
  whole = refl;
  valid = smb-IsScheme;
  is_smb = is_smb;
  parses = parsed;
  reaches = record {
    spawned = 9 ∷ [];
    networked = 9 ∷ [];
    fresh = five;
    strings = strings;
    spawns = refl;
    starts = refl;
    allocates = refl;
    texts = texts;
    accepts = refl;
  };
}

film-Names : Names connector memory windows_errno windows_flags Has cli world (9 ∷ []) five
film-Names = record {
  uri = uri;
  path = a_path.raw;
  vfs_path = a_path;
  context = five;
  asks = refl;
  reached = film-Reached;
  names = named;
  has_file = record {
    text = to_smb_path a_path;
    st = no_stat;
    looked = five;
    handle = 7;
    opened = five;
    speakable = speakable;
    stats = refl;
    no_directory = no_directory;
    opens = refl;
    held = refl;
  };
  readable = omega arith;
  word = omega arith;
}

run-OverSmb_example :
    Printed
      (λ w. Out w.outside)
      Never
      (9 ∷ five)
      (run
        (hosted terminal)
        (registry local (smb_driver connector memory windows_errno windows_flags))
        u64_mod
        6
        cli
        world)
run-OverSmb_example =
    run-OverSmb connector memory windows_errno windows_flags terminal Has Out Never
      memory-Documented local refl cli world (9 ∷ []) five film-Names u64_mod 6 (9 ∷ [])
      (omega arith) (omega arith) (omega arith) (omega arith) refl
