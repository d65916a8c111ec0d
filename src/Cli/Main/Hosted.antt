-- ===== src/Cli/Main/Hosted.antt =====
-- The terminal beside the sessions of the SMB backend: what is on standard output stays through the calls
-- of a file and the shutdown of its session.
use krystallos.Common.{ℕ, List, ◌++◌, ◌≡◌, ◌∙◌, ap, true}
use krystallos.Core.Error.{Error, Result, ok, err}
use krystallos.Core.FileHandle.Contract.{Returns}
use krystallos.Core.Run.{Run}
use krystallos.Smb.Libsmb2.{Libsmb2}
use krystallos.Smb.Errors.{Errno}
use krystallos.Smb.Operations.{OpenFlags}
use krystallos.Smb.RemoteFile.{Session, remote_read, remote_close}
use krystallos.Smb.RemoteFile.Reads.{Preads}
use krystallos.Smb.RemoteFile.Alive.{
  Closes, remote_read-alive, remote_close-alive, remote_close-Returns,
}
use krystallos.Smb.Connection.{Connector, drop_context, end_session}
use krystallos.Smb.Backend.{World, put, smb_file, shutdown}
use krystallos.Smb.Backend.Reads.{FileHolds, put-same}
use krystallos.Cli.Transfer.Whole.{Appends}
use krystallos.Cli.Commands.{Host}
use krystallos.Cli.Commands.Streamed.{Leads, Keeps}

-- A call of the process beside the sessions, and the terminal and the local files as such calls.
abbrev pub on_outside : {C G A : Type 0} → Run G A → Run (World C G) A
on_outside call w = ((call w.outside).0, record w { outside = (call w.outside).1 })

abbrev pub hosted : {C G : Type 0} → Host G → Host (World C G)
hosted host = record {
  print = λ s. on_outside (host.print s);
  write_out = λ bytes. on_outside (host.write_out bytes);
  flush_out = on_outside host.flush_out;
  create_file = λ path. on_outside (host.create_file path);
  write_file = λ n bytes. on_outside (host.write_file n bytes);
  flush_file = λ n. on_outside (host.flush_file n);
  open_source = λ path. on_outside (host.open_source path);
  source_len = λ n. on_outside (host.source_len n);
  read_source = λ n len. on_outside (host.read_source n len);
  rfc3339 = host.rfc3339;
}

-- What the terminal and libsmb2 document: standard output takes all the bytes or fails, a flush and the
-- start and the end of a session print nothing, and `smb2_pread` and `smb2_close` do what they say.
pub record Documented {C G : Type 0} (x : Connector C G) (f : Libsmb2 C) (errno : Errno)
    (o : OpenFlags) (terminal : Host G) (HoldsAt : C → ℕ → List ℕ → Type 0)
    (Out : G → List ℕ → Type 0) (Allowed : Error → Type 0) : Type 0 where
  pub preads : Preads f errno HoldsAt Allowed
  pub closes : Closes f errno o Allowed
  pub prints :
      (g : G) (written bytes : List ℕ)
      → Out g written
      → Returns
          (λ _. Out (terminal.write_out bytes g).1 (written ++ bytes))
          Allowed
          (terminal.write_out bytes g).0
  pub flushes : Keeps Out Allowed terminal.flush_out
  pub destroys :
      (c : C) (g : G) (written : List ℕ) → Out g written → Out (x.destroy_context c g) written

-- What is on standard output, while the session `n` is live.
abbrev pub Shown : {C G : Type 0} → (G → List ℕ → Type 0) → ℕ → World C G → List ℕ → Type 0
Shown Out n w written = Out w.outside written × ((w.sessions n).alive ≡ true)

beside_Returns :
    (Allowed : Error → Type 0) (P Q : Type 0) (r : Result (Unit {0}))
    → Returns (λ _. P) Allowed r
    → Q
    → Returns (λ _. P × Q) Allowed r
beside_Returns Allowed P Q (ok u) p q = (p, q)
beside_Returns Allowed P Q (err e) p q = p

pub alive_after :
    {C G : Type 0} (w : World C G) (n : ℕ) (s : Session C)
    → s.alive ≡ true
    → (put w.sessions n s n).alive ≡ true
alive_after w n s e = ap (λ t. t.alive) (put-same w.sessions n s) ∙ e

module _ {C G : Type 0} (x : Connector C G) (f : Libsmb2 C) (errno : Errno) (o : OpenFlags)
    (terminal : Host G) (HoldsAt : C → ℕ → List ℕ → Type 0) (Out : G → List ℕ → Type 0)
    (Allowed : Error → Type 0)
    (documented : Documented x f errno o terminal HoldsAt Out Allowed) where
  pub on_outside-Keeps :
      (n : ℕ) (call : Run G (Unit {0}))
      → Keeps Out Allowed call
      → Keeps (Shown {C = C} Out n) Allowed (on_outside call)
  on_outside-Keeps n call keeps w written shown =
      beside_Returns Allowed _ _ (call w.outside).0 (keeps w.outside written shown.0) shown.1

  pub smb_file-Appends :
      (n k : ℕ)
      → Appends
          (smb_file f errno o n k)
          (hosted terminal).write_out
          (FileHolds HoldsAt n k)
          (Shown Out n)
          Allowed
  smb_file-Appends n k = record {
    writes = λ w file written bytes held shown. (
      beside_Returns Allowed _ _ (terminal.write_out bytes w.outside).0
          (documented.prints w.outside written bytes shown.0) shown.1,
      held,
    );
    reads_apart = λ w file written offset len held small shown. (
      shown.0,
      alive_after w n (remote_read f errno o (w.files k, w.sessions n) offset len).1.1
          (remote_read-alive f errno o (w.files k) (w.sessions n) offset len ∙ shown.1),
    );
  }

  pub smb_file-close-Keeps : (n k : ℕ) → Keeps (Shown Out n) Allowed (smb_file f errno o n k).close
  smb_file-close-Keeps n k w written shown =
      stays (remote_close f errno o (w.files k, w.sessions n)).0 (
        remote_close-Returns f errno o Allowed (w.files k) (w.sessions n) documented.closes shown.1)
    where
      stays :
          (r : Result (Unit {0}))
          → Returns (λ _. Unit {0}) Allowed r
          → Returns (λ _. Shown Out n ((smb_file f errno o n k).close w).1 written) Allowed r
      stays (ok u) p = (
        shown.0,
        alive_after w n (remote_close f errno o (w.files k, w.sessions n)).1.1
            (remote_close-alive f errno o (w.files k) (w.sessions n) ∙ shown.1),
      )
      stays (err e) p = p

  pub shutdown-Leads :
      (n : ℕ) → Leads (Shown Out n) (λ w. Out w.outside) Allowed (shutdown x f errno o n)
  unfolding shutdown end_session drop_context
  shutdown-Leads n w written shown = simp (shown.1) (documented.destroys _ _ written shown.0)
