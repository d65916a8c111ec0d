-- ===== src/Smb/Operations/Times.antt =====
-- Times, as a caller of any backend reads them.
use krystallos.Common.{
  ℕ, ◌≤◌, ◌<◌, ◌≡◌, ◌⊎◌, inl, inr, refl, Option, none, some, Bool-cases, ◌==◌, ◌||◌, ltb, pos,
  arith,
}
use krystallos.Core.Entry.{SystemTime}
use krystallos.Smb.Operations.{timestamp}

-- What is said of a server's time: nothing exactly where the second is zero or past the year 3000, and else the
-- second, with the nanoseconds where they are fewer than a second has, and none where they are not.
abbrev pub Told : ℕ → ℕ → Option SystemTime → Type 0
Told secs nsecs none = (secs ≡ 0) ⊎ (32_503_680_000 < secs)
Told secs nsecs (some t) =
    (0 < secs)
    × (secs ≤ 32_503_680_000)
    × (t.secs ≡ pos secs)
    × (((nsecs < 1_000_000_000) × (t.nanos ≡ nsecs)) ⊎ ((1_000_000_000 ≤ nsecs) × (t.nanos ≡ 0)))

pub timestamp-Told : (secs nsecs : ℕ) → Told secs nsecs (timestamp secs nsecs)
unfolding timestamp
timestamp-Told secs nsecs = elim (Bool-cases (secs == 0 || ltb 32_503_680_000 secs)) [
  | inl t ↦ rw t (ground (arith, t))
  | inr t ↦ elim (Bool-cases (ltb nsecs 1_000_000_000)) [
    | inl s ↦ rw (t, s) (ground (arith, t), ground (arith, t), refl, inl (ground (arith, s), refl))
    | inr s ↦ rw (t, s) (ground (arith, t), ground (arith, t), refl, inr (ground (arith, s), refl))
  ]
]
