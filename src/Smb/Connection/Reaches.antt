-- ===== src/Smb/Connection/Reaches.antt =====
-- A session that comes about.
use krystallos.Common.{◌≡◌, none, some, refl, pos}
use krystallos.Core.Error.{ok}
use krystallos.Smb.Libsmb2.{Libsmb2}
use krystallos.Smb.Errors.{Errno}
use krystallos.Smb.Driver.{ConnectConfig}
use krystallos.Smb.Connection.{
  Connector, Strings, strings_of, configured, connect_context, connect_session, session_on,
}

-- The thread starts, the network is there, libsmb2 gives a context, no text of the configuration has a NUL
-- byte, and the server takes the session: the process is `g` in front of all this and `g'` behind it.
pub record Reaches {C G : Type 0} (x : Connector C G) (f : Libsmb2 C) (errno : Errno)
    (config : ConnectConfig) (g : G) (c : C) (g' : G) : Type 0 where
  pub spawned : G
  pub networked : G
  pub fresh : C
  pub strings : Strings
  pub spawns : x.spawn g ≡ (none, spawned)
  pub starts : x.start_sockets spawned ≡ (none, networked)
  pub allocates : x.init_context networked ≡ (some fresh, g')
  pub texts : strings_of config ≡ ok strings
  pub accepts :
      x.connect_share strings.server strings.share strings.user
        (configured x f errno config strings fresh)
      ≡ (pos 0, c)

pub connect_session-Reaches :
    {C G : Type 0} (x : Connector C G) (f : Libsmb2 C) (errno : Errno) (config : ConnectConfig)
    (g : G) (c : C) (g' : G)
    → Reaches x f errno config g c g'
    → connect_session x f errno config g ≡ (ok (session_on x f errno c), g')
unfolding connect_session connect_context
connect_session-Reaches x f errno config g c g' r =
    rw (r.spawns, r.starts, r.allocates, r.texts, r.accepts) refl
