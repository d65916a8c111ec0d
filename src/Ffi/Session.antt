-- ===== src/Ffi/Session.antt =====
-- crates/krystallos-ffi/src/lib.rs: `Kernel` and `Session`, over a backend that runs in a world `W`.
pub mod Disconnected
use krystallos.Common.{
  ℕ, List, map, Option, none, some, Bool, true, false, if◌then◌else◌, Text, codes,
}
use krystallos.Core.Error
use krystallos.Core.Error.{Result, IoKind}
use krystallos.Core.VfsPath.{VfsPath, new}
use krystallos.Core.Backend
use krystallos.Core.Backend.{StorageBackend}
use krystallos.Core.FileHandle.{FileHandle}
use krystallos.Core.Registry.{
  schemes, BackendDriver, BackendRegistry, empty_registry, register, connect_with,
}
use krystallos.Core.Run.{Run}
use krystallos.Smb.RemoteFile
use krystallos.Smb.Connection.{Connector}
use krystallos.Smb.Network.{link_probe}
use krystallos.Ffi.Error.{KernelError, Outcome, ok, err}
use krystallos.Ffi.Types.{
  DirEntry, EntryMetadata, OpenFlags, SmbInfo, info_from, ConnectRequest, Capabilities, from_core,
  from_entry, open_mode_from, into_parts, already_closed, capabilities_from,
}
use krystallos.Ffi.Call.{Call, ◌>>=◌, ◌>>◌, after, return, converted}
use krystallos.Ffi.File.{OpenedFile, opened}

-- `Session`, less the backend, which its calls take.
pub record Session (W : Type 0) : Type 0 where
  pub world : W
  pub endpoint : Text
  pub closed : Bool

module _ {W : Type 0} (io_text : IoKind → Text) where
  abbrev pub in_world : {A : Type 0} → Session W → Result A × W → Outcome A × Session W
  in_world s (r, w) = (converted io_text r, record s { world = w })

  -- A call of the backend, under a `?`.
  abbrev pub asked : {A : Type 0} → Run W A → Call (Session W) A
  asked call s = in_world s (call s.world)

  unfoldable pub ensure_open : Call (Session W) (Unit {0})
  unfolding already_closed
  ensure_open s = if s.closed then (err (already_closed (codes "session")), s) else (ok tt, s)

  unfoldable pub path : Text → Call (Session W) VfsPath
  path text s = (converted io_text (new text), s)

module _ {W : Type 0} (io_text : IoKind → Text) (b : StorageBackend W) where
  unfoldable pub list_entries : Text → Call (Session W) (List DirEntry)
  unfolding from_entry
  list_entries text = do
    ensure_open io_text
    p ← path io_text text
    entries ← asked io_text (b.list_entries p)
    return (map from_entry entries)

  unfoldable pub stat : Text → Call (Session W) EntryMetadata
  stat text = do
    ensure_open io_text
    p ← path io_text text
    metadata ← asked io_text (b.stat p)
    return (from_core metadata)

  unfoldable pub mkdir : Text → Call (Session W) (Unit {0})
  mkdir text = do ensure_open io_text; p ← path io_text text; asked io_text (b.mkdir p)

  unfoldable pub remove_file : Text → Call (Session W) (Unit {0})
  remove_file text = do ensure_open io_text; p ← path io_text text; asked io_text (b.remove_file p)

  unfoldable pub remove_dir : Text → Call (Session W) (Unit {0})
  remove_dir text = do ensure_open io_text; p ← path io_text text; asked io_text (b.remove_dir p)

  unfoldable pub rename : Text → Text → Call (Session W) (Unit {0})
  rename from to = do
    ensure_open io_text
    p ← path io_text from
    q ← path io_text to
    asked io_text (b.rename p q)

  unfoldable pub copy : Text → Text → Call (Session W) ℕ
  copy from to = do
    ensure_open io_text
    p ← path io_text from
    q ← path io_text to
    asked io_text (b.copy p q)

  abbrev pub file_of : Text → FileHandle W → Call (Session W) (OpenedFile W)
  file_of text h s = (ok (opened h text s.world), s)

  unfoldable pub open_file : Text → OpenFlags → Call (Session W) (OpenedFile W)
  open_file text flags = do
    ensure_open io_text
    p ← path io_text text
    h ← asked io_text (b.open_file p (open_mode_from flags))
    file_of text h

  -- The swap of `closed` lets one caller through to the backend.
  unfoldable pub disconnect : Call (Session W) (Unit {0})
  disconnect s =
      if s.closed then (ok tt, s) else asked io_text b.shutdown (record s { closed = true })

  -- `as_any` and `downcast_ref` find the number of the session of an SMB backend, or nothing; the call
  -- looks neither at `closed` nor at libsmb2.
  abbrev pub smb_info : Option ℕ → (ℕ → W → RemoteFile.SmbInfo) → Session W → Option SmbInfo
  smb_info none info s = none
  smb_info (some n) info s = some (info_from (info n s.world))

  abbrev pub capabilities : Capabilities
  capabilities = capabilities_from b.capabilities

-- `Kernel::smb_available`.
abbrev pub smb_available : {C G : Type 0} → Connector C G → G → Bool × G
smb_available x g = link_probe x g

module _ {W : Type 0} (io_text : IoKind → Text) where
  -- The registry of `Kernel::new`: the local driver, then the SMB driver.
  abbrev pub kernel :
      BackendDriver W (StorageBackend W)
      → BackendDriver W (StorageBackend W)
      → BackendRegistry W (StorageBackend W)
  kernel local smb = (register (register empty_registry local).1 smb).1

  -- `Kernel::schemes`.
  abbrev pub kernel_schemes : BackendRegistry W (StorageBackend W) → List Text
  kernel_schemes registry = schemes registry

  abbrev pub connected :
      Text → Result (StorageBackend W) × W → Outcome (StorageBackend W × Session W) × W
  connected uri (Error.err e, w) = (converted io_text (Error.err e), w)
  connected uri (Error.ok b, w) = (ok (b, record { world = w; endpoint = uri; closed = false }), w)

  unfoldable pub connect :
      BackendRegistry W (StorageBackend W)
      → ConnectRequest
      → W
      → Outcome (StorageBackend W × Session W) × W
  unfolding into_parts
  connect registry q w =
      let (uri, credentials, options) = into_parts q in
      connected uri (connect_with registry w uri credentials options)
