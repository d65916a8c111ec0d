-- ===== src/Ffi/Types/Times.antt =====
-- The times of an SMB server, from what libsmb2 reports to what crosses the boundary.
use krystallos.Common.{
  ℕ, ◌+◌, ◌*◌, ◌/◌, ◌≤◌, ◌<◌, ◌≡◌, ◌∙◌, ap, ◌⊎◌, inl, inr, refl, Option, none, some, ltb, pos,
  arith, u64_mod, if_true,
}
use krystallos.Core.Entry.{SystemTime}
use krystallos.Smb.Libsmb2.{Stat}
use krystallos.Smb.Operations.{timestamp, metadata_from_stat}
use krystallos.Smb.Operations.Times.{Told, timestamp-Told}
use krystallos.Ffi.Types.{fitting, since_epoch, to_millis, from_core}

-- No milliseconds exactly where the second is zero or past the year 3000, and else those of the second with the
-- whole milliseconds among the nanoseconds, where these are fewer than a second has.
abbrev pub Millis : ℕ → ℕ → Option ℕ → Type 0
Millis secs nsecs none = (secs ≡ 0) ⊎ (32_503_680_000 < secs)
Millis secs nsecs (some ms) =
    (0 < secs)
    × (secs ≤ 32_503_680_000)
    × (((nsecs < 1_000_000_000) × (ms ≡ secs * 1000 + nsecs / 1_000_000))
        ⊎ ((1_000_000_000 ≤ nsecs) × (ms ≡ secs * 1000)))

fitting_small : (ms : ℕ) → ms < u64_mod → fitting ms ≡ some ms
fitting_small ms small = if_true {b = ltb ms u64_mod} _ _ (ground (arith, small))

to_millis_whole :
    (secs nsecs : ℕ) (t : SystemTime)
    → secs ≤ 32_503_680_000
    → nsecs < 1_000_000_000
    → t.secs ≡ pos secs
    → t.nanos ≡ nsecs
    → to_millis (some t) ≡ some (secs * 1000 + nsecs / 1_000_000)
unfolding to_millis
to_millis_whole secs nsecs t le lt e g =
    ap (λ s. since_epoch s t.nanos) e
    ∙ ap (since_epoch (pos secs)) g
    ∙ fitting_small (secs * 1000 + nsecs / 1_000_000) (omega arith)

Told-Millis :
    (secs nsecs : ℕ) (o : Option SystemTime) → Told secs nsecs o → Millis secs nsecs (to_millis o)
unfolding to_millis
Told-Millis secs nsecs none h = h
Told-Millis secs nsecs (some t) (more, le, e, inl (lt, g)) =
    rw (to_millis_whole secs nsecs t le lt e g) (more, le, inl (lt, refl))
Told-Millis secs nsecs (some t) (more, le, e, inr (ge, g)) =
    rw (to_millis_whole secs 0 t le (omega arith) e g) (more, le, inr (ge, omega arith))

-- Of what libsmb2 reports of a file, the times of the last change, of the creation and of the last access cross the
-- boundary as whole milliseconds since the epoch, never lost to the 64 bits; each is absent exactly
-- where the server's second is zero or past the year 3000, the boundary included among the present, and
-- nanoseconds that make a second or more count as none.
pub stat_times :
    (st : Stat)
    → let m = from_core (metadata_from_stat st) in
      Millis st.smb2_mtime st.smb2_mtime_nsec m.modified_ms
      × Millis st.smb2_btime st.smb2_btime_nsec m.created_ms
      × Millis st.smb2_atime st.smb2_atime_nsec m.accessed_ms
unfolding from_core metadata_from_stat
stat_times st = (
  server_time st.smb2_mtime st.smb2_mtime_nsec,
  server_time st.smb2_btime st.smb2_btime_nsec,
  server_time st.smb2_atime st.smb2_atime_nsec,
)
  where
    server_time : (secs nsecs : ℕ) → Millis secs nsecs (to_millis (timestamp secs nsecs))
    server_time secs nsecs =
        Told-Millis secs nsecs (timestamp secs nsecs) (timestamp-Told secs nsecs)
