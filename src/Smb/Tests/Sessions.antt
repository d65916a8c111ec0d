-- ===== src/Smb/Tests/Sessions.antt =====
-- A listing, a server that refuses a user, and a session that is shut down.
use krystallos.Common.{
  ℕ, ◌+◌, List, [], ◌∷◌, ◌≡◌, none, some, false, true, arith, Text, codes, negsuc,
}
use krystallos.Smb.Libsmb2.{Libsmb2, Dirent}
use krystallos.Smb.SmbPath.{to_smb_path}
use krystallos.Smb.Errors.{windows_errno}
use krystallos.Smb.Operations.{windows_flags, list_dir}
use krystallos.Smb.Operations.Listing.{Lists, list_dir-Lists}
use krystallos.Smb.Driver.{ConnectConfig}
use krystallos.Smb.Connection.{Connector, connect_context, thread_of}
use krystallos.Smb.Connection.Ledger.{Accounts, counted, no_contexts, thread_of-Accounts}
use krystallos.Smb.Backend.{World, shutdown, smb_file}
use krystallos.Smb.Backend.Gone.{here, next, reads}
use krystallos.Smb.Backend.Shut.{Refuses, shutdown-Refuses}
use krystallos.Smb.RemoteFile.{Session}
use krystallos.Smb.OpenFiles.{no_files}
use krystallos.Smb.Tests.{no_stat, memory, five, a_path, commands}

abbrev named : Text → Dirent
named name = record { name = name; st = no_stat }

abbrev folder : Libsmb2 (List ℕ)
folder = record memory {
  opendir = λ c s. (some (named (codes "..") ∷ named (codes "b") ∷ named (codes "a") ∷ []), c);
}

list_dir-Lists_example :
    Lists folder five (to_smb_path a_path) (list_dir folder windows_errno five a_path).0
list_dir-Lists_example = list_dir-Lists folder windows_errno five a_path

-- A process whose server refuses the user.
abbrev refusing : Connector (List ℕ) ℕ
refusing = record {
  start_sockets = λ g. (none, g);
  spawn = λ g. (none, g);
  init_context = λ g. (some five, g + 1);
  destroy_context = λ c g. g + 10;
  set_user = λ s c. c;
  set_password = λ s c. c;
  set_domain = λ s c. c;
  set_seal = λ b c. c;
  set_timeout = λ n c. c;
  connect_share = λ server share user c. (negsuc 12, c);
  disconnect_share = λ c. c;
  max_read_size = λ c. 2;
  max_write_size = λ c. 2;
  dialect = λ c. 0x0311;
}

abbrev config : ConnectConfig
config = record {
  config_server = codes "nas";
  config_share = codes "films";
  config_user = some (codes "u");
  config_password = none;
  config_domain = none;
  seal = false;
  timeout_secs = 20;
  config_label = codes "smb://nas/films";
}

thread_of-Accounts_example :
    Accounts (connect_context (counted refusing) memory windows_errno config (no_contexts 0))
    × (let end =
          thread_of
            (counted refusing)
            memory
            windows_errno
            windows_flags
            config
            commands
            (no_contexts 0) in
        end.made ≡ end.destroyed)
thread_of-Accounts_example =
    thread_of-Accounts refusing memory windows_errno windows_flags config commands 0

abbrev live : Session (List ℕ)
live = record {
  actor = record { ctx = five; files = no_files };
  alive = true;
  max_read_size = 2;
  max_write_size = 2;
  dialect = 0x0311;
}

abbrev two_sessions : World (List ℕ) ℕ
two_sessions = record {
  outside = 0;
  sessions = λ n. live;
  next_session = 2;
  files = λ k. record { id = 1; len = 5; closed = false; path = a_path };
  next_file = 3;
}

abbrev behind_shutdown : World (List ℕ) ℕ
behind_shutdown = (shutdown refusing memory windows_errno windows_flags 0 two_sessions).1

abbrev behind_read : World (List ℕ) ℕ
behind_read = ((smb_file memory windows_errno windows_flags 1 2).read_at behind_shutdown 0 3).1

shutdown-Refuses_example : Refuses refusing memory windows_errno windows_flags 0 behind_read
shutdown-Refuses_example =
    shutdown-Refuses refusing memory windows_errno windows_flags 0 two_sessions (omega arith)
      (next here (reads 1 2 0 3 behind_shutdown))
