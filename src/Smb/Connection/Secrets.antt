-- ===== src/Smb/Connection/Secrets.antt =====
-- Where the password of a session goes.
use krystallos.Common.{◌≡◌, refl, ap, true, false, none, some, Text, Option, member}
use krystallos.Core.Error.{Result, ok, err, ◌>>=◌, invalid_path, IoKind}
use krystallos.Smb.Libsmb2.{Libsmb2}
use krystallos.Smb.SmbPath.{cstring, show_nul, nul_reason}
use krystallos.Smb.Errors.{Errno}
use krystallos.Smb.Driver.{ConnectConfig}
use krystallos.Smb.Connection.{
  Connector, Strings, optional_cstring, strings_of, configured, connect_context, connect_session,
  handshake, where_given, allocated, networked, spawned, shaken, reported, drop_context,
}

abbrev pub with_password : ConnectConfig → Text → ConnectConfig
with_password config p = record config { config_password = some p }

-- The texts of a configuration, given what becomes of each.
abbrev gathered :
    Result (Option Text) → Text → Result (Option Text) → Result Text → Result Text → Result Strings
gathered u p d s h = do
  user ← u
  domain ← d
  server ← s
  share ← h
  ok (record { user = user; password = some p; domain = domain; server = server; share = share })

strings_of-password :
    (config : ConnectConfig) (p : Text)
    → member 0 p ≡ false
    → strings_of (with_password config p)
      ≡ gathered
          (optional_cstring config.config_user)
          p
          (optional_cstring config.config_domain)
          (cstring config.config_server)
          (cstring config.config_share)
unfolding strings_of cstring
strings_of-password config p clean = simp clean refl

module _ {C G : Type 0} (x : Connector C G) (f : Libsmb2 C) (errno : Errno) (p q : Text)
    (alike : (c : C) → x.set_password p c ≡ x.set_password q c) where
  handshake-alike :
      (config : ConnectConfig) (c : C) (g : G) (u d : Result (Option Text)) (s h : Result Text)
      → handshake x f errno (with_password config p) c g (gathered u p d s h)
        ≡ handshake x f errno (with_password config q) c g (gathered u q d s h)
  unfolding configured
  handshake-alike config c g (err e) d s h = refl
  handshake-alike config c g (ok u) (err e) s h = refl
  handshake-alike config c g (ok u) (ok d) (err e) h = refl
  handshake-alike config c g (ok u) (ok d) (ok s) (err e) = refl
  handshake-alike config c g (ok u) (ok d) (ok s) (ok h) =
      ap
        (λ k. shaken x f errno config g (
          x.connect_share s h u (
            x.set_timeout config.timeout_secs
              (x.set_seal config.seal (where_given x f errno x.set_domain d k)))))
        (alike (where_given x f errno x.set_user u c))

  allocated-alike :
      (config : ConnectConfig) (out : Option C × G)
      → member 0 p ≡ false
      → member 0 q ≡ false
      → allocated x f errno (with_password config p) out
        ≡ allocated x f errno (with_password config q) out
  allocated-alike config (none, g) hp hq = refl
  allocated-alike config (some c, g) hp hq =
      rw (strings_of-password config p hp, strings_of-password config q hq)
        (handshake-alike config c g (optional_cstring config.config_user)
          (optional_cstring config.config_domain) (cstring config.config_server)
          (cstring config.config_share))

  networked-alike :
      (config : ConnectConfig) (out : Option Text × G)
      → member 0 p ≡ false
      → member 0 q ≡ false
      → networked x f errno (with_password config p) out
        ≡ networked x f errno (with_password config q) out
  networked-alike config (some m, g) hp hq = refl
  networked-alike config (none, g) hp hq = allocated-alike config (x.init_context g) hp hq

  pub connect_session-alike :
      (config : ConnectConfig) (g : G)
      → member 0 p ≡ false
      → member 0 q ≡ false
      → connect_session x f errno (with_password config p) g
        ≡ connect_session x f errno (with_password config q) g
  unfolding connect_session connect_context
  connect_session-alike config g hp hq = by_spawn (x.spawn g)
    where
      by_spawn :
          (out : Option IoKind × G)
          → spawned x f errno (with_password config p) out
            ≡ spawned x f errno (with_password config q) out
      by_spawn (some kind, g') = refl
      by_spawn (none, g') =
          ap (reported x f errno) (networked-alike config (x.start_sockets g') hp hq)

-- A password with a NUL byte, of a user without one: the error names it as the path.
strings_of_nul :
    (config : ConnectConfig) (p : Text) (user : Option Text)
    → member 0 p ≡ true
    → optional_cstring config.config_user ≡ ok user
    → strings_of (with_password config p) ≡ err (invalid_path (show_nul p) nul_reason)
unfolding strings_of cstring
strings_of_nul config p user nul e = simp (e, nul) refl

pub connect_session_nul :
    {C G : Type 0} (x : Connector C G) (f : Libsmb2 C) (errno : Errno) (config : ConnectConfig)
    (p : Text) (user : Option Text) (g g1 g2 g3 : G) (c : C)
    → member 0 p ≡ true
    → optional_cstring config.config_user ≡ ok user
    → x.spawn g ≡ (none, g1)
    → x.start_sockets g1 ≡ (none, g2)
    → x.init_context g2 ≡ (some c, g3)
    → connect_session x f errno (with_password config p) g
      ≡ (err (invalid_path (show_nul p) nul_reason), drop_context x f errno c g3)
unfolding connect_session connect_context
connect_session_nul x f errno config p user g g1 g2 g3 c nul e spawns starts allocates =
    rw (spawns, starts, allocates, strings_of_nul config p user nul e) refl
