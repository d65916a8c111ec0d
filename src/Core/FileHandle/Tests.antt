-- ===== src/Core/FileHandle/Tests.antt =====
-- Reads of a small file through the provided method.
use krystallos.Common.{ℕ, List, [], ◌∷◌, ◌≡◌, refl, arith, add_u64}
use krystallos.Core.Error.{ok, err, io, unexpected_eof}
use krystallos.Core.FileHandle.{read_exact_at}
use krystallos.Core.FileHandle.Contract.{Returns}
use krystallos.Core.FileHandle.ReadExact.{IsWhole, Refusal, read_exact_at-Returns}
use krystallos.Core.FileHandle.Memory.{capped, Holds, Never, capped-Serves}

abbrev five : List ℕ
five = 10 ∷ 11 ∷ 12 ∷ 13 ∷ 14 ∷ []

three_bytes : (read_exact_at (capped 2) five 1 3).0 ≡ ok (11 ∷ 12 ∷ 13 ∷ [])
unfolding read_exact_at add_u64
three_bytes = refl

past_the_end : (read_exact_at (capped 2) five 3 3).0 ≡ err (io unexpected_eof)
unfolding read_exact_at add_u64
past_the_end = refl

read_exact_at-Returns_example :
    Returns (IsWhole five 1 3) (Refusal Never five 1 3) (read_exact_at (capped 2) five 1 3).0
    × Holds (read_exact_at (capped 2) five 1 3).1 five
read_exact_at-Returns_example =
    read_exact_at-Returns (capped 2) Holds Never (capped-Serves 2 (omega arith)) five five 1 3 refl
      (omega arith)
