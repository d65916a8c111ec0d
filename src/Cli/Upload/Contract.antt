-- ===== src/Cli/Upload/Contract.antt =====
-- What `put` relies on of its source and of the file that it writes.
use krystallos.Common.{ℕ, ◌≤◌, ◌<◌, List, ◌++◌, ◌≡◌, ◌⊎◌, length, take, drop, u64_mod}
use krystallos.Core.Error.{Error, backend}
use krystallos.Core.FileHandle.{FileHandle}
use krystallos.Core.FileHandle.Contract.{IsRead, Returns}
use krystallos.Core.Run.{Run}
use krystallos.Cli.Upload.{no_progress_reason}

-- What `Read::read` documents of the source, of which `rest` is left, and `write_at` of a file that holds
-- `content`, at its end: each may do less than it is asked to.
pub record Uploads {W : Type 0} (read : ℕ → Run W (List ℕ)) (h : FileHandle W)
    (Left : W → List ℕ → Type 0) (Content : W → List ℕ → Type 0) (Allowed : Error → Type 0)
    : Type 0 where
  pub supplies :
      (w : W) (rest content : List ℕ) (n : ℕ)
      → Left w rest
      → Content w content
      → Returns
          (λ (bytes : List ℕ). IsRead rest 0 n bytes × Left (read n w).1 (drop (length bytes) rest))
          Allowed
          (read n w).0
        × Content (read n w).1 content
  pub stores :
      (w : W) (rest content bytes : List ℕ)
      → Left w rest
      → Content w content
      → length content < u64_mod
      → Returns
          (λ (n : ℕ).
            (n ≤ length bytes)
            × Content (h.write_at w (length content) bytes).1 (content ++ take n bytes))
          Allowed
          (h.write_at w (length content) bytes).0
        × Left (h.write_at w (length content) bytes).1 rest

-- An error of either side, or a backend that takes no byte.
abbrev pub Failure : (Error → Type 0) → Error → Type 0
Failure Allowed e = Allowed e ⊎ (e ≡ backend no_progress_reason)
