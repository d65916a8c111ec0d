-- ===== src/Cache/Window/Copy.antt =====
-- A window that holds bytes of the file serves what it covers, as the contract of `read_at` asks.
use krystallos.Common.{
  ℕ, ◌+◌, ◌-◌, ◌≤◌, ◌<◌, min, List, ◌≡◌, ◌⊎◌, inl, inr, ap, ap₂, ◌∙◌, true, arith, length, take,
  drop, u64_mod, saturating_add, add_u64_exact, sub_u64_exact, as_usize_exact, length-take,
  length-drop, take-take, drop-drop, drop-take,
}
use krystallos.Core.FileHandle.Contract.{IsRead, exact_of_take, exact_bound}
use krystallos.Cache.Window.{Window, window_end, covers, copy_out}

-- The window holds the bytes of the file at its start, and knows the end only if it reaches it.
pub record WindowOf (file : List ℕ) (w : Window) : Type 0 where
  pub exact : w.bytes ≡ take (length w.bytes) (drop w.start file)
  pub ended : w.eof ≡ true → length file ≤ w.start + length w.bytes
  pub small : w.start < u64_mod

pub window_bound :
    {file : List ℕ} {w : Window} → WindowOf file w → length w.bytes ≤ length file - w.start
window_bound {file} {w} v = exact_bound file w.bytes w.start v.exact

pub window_end_exact :
    {file : List ℕ} {w : Window}
    → WindowOf file w
    → length file < u64_mod
    → window_end w ≡ w.start + length w.bytes
unfolding window_end
window_end_exact {file} {w} v fits =
    add_u64_exact w.start (length w.bytes) (omega (arith, window_bound v, v.small))

-- What `covers` answers for, with no wrap-around in sight.
pub covers_lem :
    (w : Window) (offset n : ℕ) {file : List ℕ}
    → WindowOf file w
    → length file < u64_mod
    → offset < u64_mod
    → 0 < n
    → covers w offset n ≡ true
    → (w.start ≤ offset) × (offset < length file → offset < w.start + length w.bytes)
unfolding covers saturating_add
covers_lem w offset n v fits small pos c = ground (arith, window_end_exact v fits)

-- `copy_out` with its two conversions gone: `from` is the distance to the start, or the end.
pub copy_out_exact :
    (usize_mod : ℕ) (w : Window) (offset n : ℕ)
    → u64_mod ≤ usize_mod
    → w.start ≤ offset
    → offset < u64_mod
    → copy_out usize_mod w offset n ≡ (
        let from = min (offset - w.start) (length w.bytes) in
        take (min (length w.bytes - from) n) (drop from w.bytes))
unfolding copy_out
copy_out_exact usize_mod w offset n wide le small = rw (
  sub_u64_exact offset w.start le small,
  as_usize_exact usize_mod (offset - w.start) wide (omega arith),
)

-- Bytes `from` onwards of a window stand in the file at its start plus `from`.
slice_of_window :
    {file : List ℕ} {w : Window} (from m : ℕ)
    → WindowOf file w
    → take m (drop from w.bytes) ≡ take (min m (length w.bytes - from)) (drop (w.start + from) file)
slice_of_window {file} {w} from m v =
    ap (λ l. take m (drop from l)) v.exact
    ∙ ap (λ l. take m l) (drop-take from (length w.bytes) (drop w.start file))
    ∙ take-take m (length w.bytes - from) (drop from (drop w.start file))
    ∙ ap (λ l. take (min m (length w.bytes - from)) l) (drop-drop from w.start file)

-- Slices that start at one place, or are empty.
same_slice :
    (file : List ℕ) (i j : ℕ) {k m : ℕ}
    → k ≡ m
    → (i ≡ j) ⊎ (m ≡ 0)
    → take k (drop i file) ≡ take m (drop j file)
same_slice file i j e (inl p) = ap₂ (λ k i. take k (drop i file)) e p
same_slice file i j e (inr p) = rw (e, p)

-- What a valid window copies out is a read of the file: nothing stale, nothing shifted, and nothing
-- at all only at its end.
pub copy_out-IsRead :
    (usize_mod : ℕ) (w : Window) (offset n : ℕ) {file : List ℕ}
    → WindowOf file w
    → u64_mod ≤ usize_mod
    → length file < u64_mod
    → offset < u64_mod
    → 0 < n
    → covers w offset n ≡ true
    → IsRead file offset n (copy_out usize_mod w offset n)
copy_out-IsRead usize_mod w offset n {file} v wide fits small pos c =
    let (le, near) = covers_lem w offset n v fits small pos c in
    rw (copy_out_exact usize_mod w offset n wide le small) (slice le near)
  where
    from : ℕ
    from = min (offset - w.start) (length w.bytes)

    m : ℕ
    m = min (length w.bytes - from) n

    size : length (take m (drop from w.bytes)) ≡ m
    size = length-take m (drop from w.bytes) ∙ omega (arith, length-drop from w.bytes)

    at_offset : w.start ≤ offset → take m (drop from w.bytes) ≡ take m (drop offset file)
    at_offset le =
        slice_of_window from m v
        ∙ same_slice file (w.start + from) offset (omega arith) (omega arith)

    slice :
        w.start ≤ offset
        → (offset < length file → offset < w.start + length w.bytes)
        → IsRead file offset n (take m (drop from w.bytes))
    slice le near = record {
      fits = omega (arith, size);
      exact = exact_of_take m (take m (drop from w.bytes)) (drop offset file) (at_offset le);
      progress = λ p q. omega (arith, size, near q);
    }
