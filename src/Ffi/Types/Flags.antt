-- ===== src/Ffi/Types/Flags.antt =====
-- The mode that the flags of the Kotlin side stand for.
use krystallos.Common.{◌≡◌, false, not, ◌||◌, arith, if◌then◌else◌}
use krystallos.Ffi.Types.{OpenFlags, open_mode_from}

-- Every field of the mode, for all the 32 flags: an exclusive creation writes and never reads; else
-- the access is the one asked for, and reading where none is. `create` is not looked at: a file is
-- created exactly where it is opened for writing. `truncate` is kept as it is.
pub open_mode_from_lem :
    (f : OpenFlags)
    → let m = open_mode_from f in
      (m.read ≡ (if f.create_new then false else f.read || not f.write))
      × (m.write ≡ (f.create_new || f.write))
      × (m.create ≡ m.write)
      × (m.create_new ≡ f.create_new)
      × (m.truncate ≡ f.truncate)
unfolding open_mode_from
open_mode_from_lem f = ground arith
