-- ===== src/Smb/Backend/Gone.antt =====
-- A session that has ended, among the calls of all backends and all files.
use krystallos.Common.{
  ℕ, ◌<◌, List, ◌≡◌, refl, sym, ap, ◌∙◌, arith, false, Bool-cases, inl, inr, ◌==◌, if_true,
  if_false, Text,
}
use krystallos.Core.Error.{Result, ok, err}
use krystallos.Core.VfsPath.{VfsPath}
use krystallos.Core.FileHandle.{OpenMode}
use krystallos.Core.Endpoint.{Endpoint}
use krystallos.Core.Registry.{Credentials, ConnectionOptions}
use krystallos.Smb.Libsmb2.{Libsmb2}
use krystallos.Smb.Errors.{Errno}
use krystallos.Smb.Operations.{OpenFlags}
use krystallos.Smb.Actor.{Command, Reply}
use krystallos.Smb.Driver.{ConnectConfig, connect_config}
use krystallos.Smb.RemoteFile.{Session, RemoteFile, open_remote}
use krystallos.Smb.RemoteFile.Alive.{
  call-alive, open_remote-alive, remote_read-alive, remote_write-alive, remote_set_len-alive,
  remote_flush-alive, remote_close-alive,
}
use krystallos.Smb.Connection.{Connector, connect_session, end_session}
use krystallos.Smb.Backend.{
  World, put, ask, smb_file, filed, open_file, shutdown, connect, connect_to, connected,
}

module _ {C G : Type 0} (x : Connector C G) (f : Libsmb2 C) (errno : Errno) (o : OpenFlags) where
  -- A call of some backend or of some file, or a connect.
  pub data Step : World C G → World C G → Type 1 where
    asks :
        {A : Type 0} (read : Reply → Result A) (command : Command) (m : ℕ) (w : World C G)
        → Step w (ask f errno o read command m w).1
    opens :
        (m : ℕ) (path : VfsPath) (mode : OpenMode) (w : World C G)
        → Step w (open_file f errno o m path mode w).1
    reads :
        (m k offset n : ℕ) (w : World C G) → Step w ((smb_file f errno o m k).read_at w offset n).1
    writes :
        (m k offset : ℕ) (content : List ℕ) (w : World C G)
        → Step w ((smb_file f errno o m k).write_at w offset content).1
    resizes : (m k n : ℕ) (w : World C G) → Step w ((smb_file f errno o m k).set_len w n).1
    flushes : (m k : ℕ) (w : World C G) → Step w ((smb_file f errno o m k).flush w).1
    closes : (m k : ℕ) (w : World C G) → Step w ((smb_file f errno o m k).close w).1
    shuts : (m : ℕ) (w : World C G) → Step w (shutdown x f errno o m w).1
    connects :
        (e : Endpoint) (c : Credentials) (options : ConnectionOptions) (w : World C G)
        → Step w (connect x f errno o e c options w).1

  pub data Reach (w : World C G) : World C G → Type 1 where
    here : Reach w w
    next : {u v : World C G} → Reach w u → Step u v → Reach w v

  -- The session `n` was handed out, and its thread is gone.
  pub record IsGone (n : ℕ) (w : World C G) : Type 0 where
    pub given : n < w.next_session
    pub gone : (w.sessions n).alive ≡ false

  put-gone :
      (sessions : ℕ → Session C) (m n : ℕ) (s : Session C)
      → s.alive ≡ (sessions m).alive
      → (sessions n).alive ≡ false
      → (put sessions m s n).alive ≡ false
  put-gone sessions m n s e g = elim (Bool-cases (n == m)) [
    | inl t ↦
        let same : n ≡ m = ground (arith, t) in
        rw (if_true s (sessions n) t) (e ∙ ap (λ k. (sessions k).alive) (sym same) ∙ g)
    | inr t ↦ rw (if_false s (sessions n) t) g
  ]

  filed-IsGone :
      (m n : ℕ) (w : World C G) (out : Result RemoteFile × Session C)
      → out.1.alive ≡ (w.sessions m).alive
      → IsGone n w
      → IsGone n (filed f errno o m w out).1
  filed-IsGone m n w (err e, s) a g = record {
    given = g.given;
    gone = put-gone w.sessions m n s a g.gone;
  }
  filed-IsGone m n w (ok r, s) a g = record {
    given = g.given;
    gone = put-gone w.sessions m n s a g.gone;
  }

  pub end_session-gone : (s : Session C) (g : G) → (end_session x f errno o s g).0.alive ≡ false
  unfolding end_session
  end_session-gone s g = elim (Bool-cases s.alive) [ inl t ↦ simp t refl | inr t ↦ simp t refl ]

  shutdown-IsGone : (m n : ℕ) (w : World C G) → IsGone n w → IsGone n (shutdown x f errno o m w).1
  unfolding shutdown
  shutdown-IsGone m n w g = record {
    given = g.given;
    gone = elim (Bool-cases (n == m)) [
      | inl t ↦
          ap (λ s. s.alive)
            (if_true (end_session x f errno o (w.sessions m) w.outside).0 (w.sessions n) t)
          ∙ end_session-gone (w.sessions m) w.outside
      | inr t ↦
          ap (λ s. s.alive)
            (if_false (end_session x f errno o (w.sessions m) w.outside).0 (w.sessions n) t)
          ∙ g.gone
    ];
  }

  connected-IsGone :
      (n : ℕ) (label : Text) (w : World C G) (out : Result (Session C) × G)
      → IsGone n w
      → IsGone n (connected x f errno o label w out).1
  connected-IsGone n label w (err e, g) h = record { given = h.given; gone = h.gone }
  connected-IsGone n label w (ok s, g) h = record {
    given = omega (arith, h.given);
    gone =
        let other : (n == w.next_session) ≡ false = ground (arith, h.given) in
        ap (λ t. t.alive) (if_false s (w.sessions n) other) ∙ h.gone;
  }

  connect_to-IsGone :
      (n : ℕ) (config : Result ConnectConfig) (w : World C G)
      → IsGone n w
      → IsGone n (connect_to x f errno o config w).1
  connect_to-IsGone n (err e) w g = g
  connect_to-IsGone n (ok config) w g =
      connected-IsGone n config.config_label w (connect_session x f errno config w.outside) g

  after_call :
      (m n : ℕ) (w : World C G) (s : Session C) (files : ℕ → RemoteFile)
      → s.alive ≡ (w.sessions m).alive
      → IsGone n w
      → IsGone n (record w { sessions = put w.sessions m s; files = files })
  after_call m n w s files a g = record {
    given = g.given;
    gone = put-gone w.sessions m n s a g.gone;
  }

  Step-IsGone : {w v : World C G} (n : ℕ) → Step w v → IsGone n w → IsGone n v
  unfolding open_file connect
  Step-IsGone n (asks read command m w) g =
      after_call m n w _ _ (call-alive f errno o read command (w.sessions m)) g
  Step-IsGone n (opens m path mode w) g =
      filed-IsGone m n w (open_remote f errno o (w.sessions m) path mode)
        (open_remote-alive f errno o (w.sessions m) path mode) g
  Step-IsGone n (reads m k offset len w) g =
      after_call m n w _ _ (remote_read-alive f errno o (w.files k) (w.sessions m) offset len) g
  Step-IsGone n (writes m k offset content w) g =
      after_call m n w _ _ (remote_write-alive f errno o (w.files k) (w.sessions m) offset content)
        g
  Step-IsGone n (resizes m k len w) g =
      after_call m n w _ _ (remote_set_len-alive f errno o (w.files k) (w.sessions m) len) g
  Step-IsGone n (flushes m k w) g =
      after_call m n w _ _ (remote_flush-alive f errno o (w.files k) (w.sessions m)) g
  Step-IsGone n (closes m k w) g =
      after_call m n w _ _ (remote_close-alive f errno o (w.files k) (w.sessions m)) g
  Step-IsGone n (shuts m w) g = shutdown-IsGone m n w g
  Step-IsGone n (connects e c options w) g = connect_to-IsGone n (connect_config e c options) w g

  pub Reach-IsGone : {w v : World C G} (n : ℕ) → Reach w v → IsGone n w → IsGone n v
  Reach-IsGone n here g = g
  Reach-IsGone n (next r s) g = Step-IsGone n s (Reach-IsGone n r g)
