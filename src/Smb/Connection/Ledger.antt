-- ===== src/Smb/Connection/Ledger.antt =====
-- Each context that libsmb2 makes is destroyed once: a libsmb2 that counts both.
use krystallos.Common.{ℕ, zero, suc, List, ◌≡◌, refl, ap, Option, none, some, Text, ℤ, pos, negsuc}
use krystallos.Core.Error.{Result, ok, err}
use krystallos.Smb.Libsmb2.{Libsmb2}
use krystallos.Smb.Errors.{Errno}
use krystallos.Smb.Operations.{OpenFlags}
use krystallos.Smb.Actor.{Command}
use krystallos.Smb.Driver.{ConnectConfig}
use krystallos.Smb.Connection.{
  Connector, Strings, strings_of, configured, drop_context, shaken, handshake, allocated, networked,
  connect_context, served, thread_of,
}

pub record Ledger (G : Type 0) : Type 0 where
  pub inner : G
  pub made : ℕ
  pub destroyed : ℕ

module _ {G : Type 0} where
  abbrev pub beside {ℓ} : {A : Type ℓ} → Ledger G → A × G → A × Ledger G
  beside l (a, g) = (a, record l { inner = g })

  abbrev pub no_contexts : G → Ledger G
  no_contexts g = record { inner = g; made = 0; destroyed = 0 }

module _ {C G : Type 0} where
  abbrev pub note_made : Ledger G → Option C × G → Option C × Ledger G
  note_made l (none, g) = (none, record l { inner = g })
  note_made l (some c, g) = (some c, record l { inner = g; made = suc l.made })

  -- The same calls, counted.
  abbrev pub counted : Connector C G → Connector C (Ledger G)
  counted x = record {
    start_sockets = λ l. beside l (x.start_sockets l.inner);
    spawn = λ l. beside l (x.spawn l.inner);
    init_context = λ l. note_made l (x.init_context l.inner);
    destroy_context = λ c l. record {
      inner = x.destroy_context c l.inner;
      made = l.made;
      destroyed = suc l.destroyed;
    };
    set_user = x.set_user;
    set_password = x.set_password;
    set_domain = x.set_domain;
    set_seal = x.set_seal;
    set_timeout = x.set_timeout;
    connect_share = x.connect_share;
    disconnect_share = x.disconnect_share;
    max_read_size = x.max_read_size;
    max_write_size = x.max_write_size;
    dialect = x.dialect;
  }

  -- One context more is made than destroyed behind a success, and none behind a failure.
  abbrev pub Accounts : Result C × Ledger G → Type 0
  Accounts (ok c, l) = l.made ≡ suc l.destroyed
  Accounts (err e, l) = l.made ≡ l.destroyed

module _ {C G : Type 0} (x : Connector C G) (f : Libsmb2 C) (errno : Errno)
    (config : ConnectConfig) where
  shaken-Accounts :
      (l : Ledger G) (out : ℤ × C)
      → l.made ≡ suc l.destroyed
      → Accounts (shaken (counted x) f errno config l out)
  unfolding drop_context
  shaken-Accounts l (pos zero, c) e = e
  shaken-Accounts l (pos (suc n), c) e = e
  shaken-Accounts l (negsuc n, c) e = e

  handshake-Accounts :
      (l : Ledger G) (c : C) (s : Result Strings)
      → l.made ≡ suc l.destroyed
      → Accounts (handshake (counted x) f errno config c l s)
  unfolding drop_context
  handshake-Accounts l c (err e) h = h
  handshake-Accounts l c (ok s) h =
      shaken-Accounts l
        (x.connect_share s.server s.share s.user (configured (counted x) f errno config s c)) h

  allocated-Accounts :
      (l : Ledger G) (out : Option C × G)
      → l.made ≡ l.destroyed
      → Accounts (allocated (counted x) f errno config (note_made l out))
  allocated-Accounts l (none, g) h = h
  allocated-Accounts l (some c, g) h =
      handshake-Accounts (record l { inner = g; made = suc l.made }) c (strings_of config)
        (ap suc h)

  networked-Accounts :
      (l : Ledger G) (out : Option Text × G)
      → l.made ≡ l.destroyed
      → Accounts (networked (counted x) f errno config (beside l out))
  networked-Accounts l (some message, g) h = h
  networked-Accounts l (none, g) h =
      allocated-Accounts (record l { inner = g }) (x.init_context g) h

  connect_context-Accounts :
      (l : Ledger G)
      → l.made ≡ l.destroyed
      → Accounts (connect_context (counted x) f errno config l)
  unfolding connect_context
  connect_context-Accounts l h = networked-Accounts l (x.start_sockets l.inner) h

served-Accounts :
    {C G : Type 0} (x : Connector C G) (f : Libsmb2 C) (errno : Errno) (o : OpenFlags)
    (commands : List Command) (out : Result C × Ledger G)
    → Accounts out
    → let l = served (counted x) f errno o commands out in l.made ≡ l.destroyed
unfolding drop_context
served-Accounts x f errno o commands (err e, l) h = h
served-Accounts x f errno o commands (ok c, l) h = h

-- Whatever the sockets, libsmb2 and the server answer, a connect that fails has destroyed each context
-- that it made, one that succeeds has one that is not, and behind the thread as a whole, whatever
-- commands reached it, as many contexts were destroyed as were made.
pub thread_of-Accounts :
    {C G : Type 0} (x : Connector C G) (f : Libsmb2 C) (errno : Errno) (o : OpenFlags)
    (config : ConnectConfig) (commands : List Command) (g : G)
    → let l = no_contexts g in
      Accounts (connect_context (counted x) f errno config l)
      × (let end = thread_of (counted x) f errno o config commands l in end.made ≡ end.destroyed)
unfolding thread_of
thread_of-Accounts x f errno o config commands g =
    let l = no_contexts g in
    let held = connect_context-Accounts x f errno config l refl in
    (held, served-Accounts x f errno o commands (connect_context (counted x) f errno config l) held)
