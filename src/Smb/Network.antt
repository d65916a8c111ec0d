-- ===== src/Smb/Network.antt =====
-- crates/krystallos-sys-smb2/src/network.rs, and `link_probe` of src/lib.rs: the sockets of windows are
-- started once, and the outcome is kept.
use krystallos.Common.{
  ℕ, ◌==◌, ◌++◌, ◌≡◌, refl, Option, none, some, Bool, true, false, if◌then◌else◌, Text, codes,
  decimal,
}
use krystallos.Smb.Connection.{Connector}

-- `OUTCOME` is `none` before the first call; beside it stands the state of the process.
pub record Network (G : Type 0) : Type 0 where
  pub outcome : Option (Option Text)
  pub inner : G

abbrev pub startup_failed : ℕ → Text
startup_failed rc =
    codes "WSAStartup failed with error "
    ++ (decimal rc ++ codes "; the SMB backend cannot open sockets on this system")

abbrev pub outcome_of : ℕ → Option Text
outcome_of rc = if rc == 0 then none else some (startup_failed rc)

module _ {G : Type 0} where
  abbrev pub kept : ℕ × G → Option Text × Network G
  kept (rc, g) = (outcome_of rc, record { outcome = some (outcome_of rc); inner = g })

  abbrev pub once : (G → ℕ × G) → Option (Option Text) → G → Option Text × Network G
  once startup none g = kept (startup g)
  once startup (some message) g = (message, record { outcome = some message; inner = g })

  -- `ensure_network_ready`; `windows` is `cfg(windows)`, and `startup` is `WSAStartup` for version 2.2.
  unfoldable pub ensure_network_ready : Bool → (G → ℕ × G) → Network G → Option Text × Network G
  ensure_network_ready windows startup n =
      if windows then once startup n.outcome n.inner else (none, n)

  once_again :
      (startup : G → ℕ × G) (m : Option (Option Text)) (g : G)
      → let (message, n) = once startup m g in once startup n.outcome n.inner ≡ (message, n)
  once_again startup none g = refl
  once_again startup (some message) g = refl

  -- A second call reports what the first one did, and starts nothing.
  pub ensure_network_ready_lem :
      (windows : Bool) (startup : G → ℕ × G) (n : Network G)
      → let (message, m) = ensure_network_ready windows startup n in
        ensure_network_ready windows startup m ≡ (message, m)
  unfolding ensure_network_ready
  ensure_network_ready_lem false startup n = refl
  ensure_network_ready_lem true startup n = once_again startup n.outcome n.inner

module _ {C G : Type 0} (x : Connector C G) where
  abbrev pub probed : Option C × G → Bool × G
  probed (none, g) = (false, g)
  probed (some c, g) = (true, x.destroy_context c g)

  unfoldable pub link_probe : G → Bool × G
  link_probe g = probed (x.init_context g)
