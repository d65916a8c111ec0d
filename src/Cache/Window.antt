-- ===== src/Cache/Window.antt =====
-- crates/krystallos-cache/src/lib.rs: `Window`, the buffered region of the file.
pub mod Copy
use krystallos.Common.{
  ℕ, ◌+◌, ◌-◌, min, List, [], Bool, true, false, not, ◌&&◌, ◌||◌, ◌==◌, ltb, leb, if◌then◌else◌,
  length, take, drop, add_u64, sub_u64, saturating_add, as_usize,
}

pub record Window : Type 0 where
  pub bytes : List ℕ
  pub start : ℕ
  pub eof : Bool

abbrev pub empty_window : Window
empty_window = record { bytes = []; start = 0; eof = false }

unfoldable pub window_end : Window → ℕ
window_end w = add_u64 w.start (length w.bytes)

unfoldable pub covers : Window → ℕ → ℕ → Bool
covers w offset len =
    if len == 0
    then true
    else if ltb offset w.start
    then false
    else leb (saturating_add offset len) (window_end w) || w.eof

-- What goes to the front of `buf`, of length `len`. `usize_mod` is the number of `usize` values.
unfoldable pub copy_out : ℕ → Window → ℕ → ℕ → List ℕ
copy_out usize_mod w offset len =
    let from = min (as_usize usize_mod (sub_u64 offset w.start)) (length w.bytes) in
    let available = length w.bytes - from in take (min available len) (drop from w.bytes)
