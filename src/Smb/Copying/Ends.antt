-- ===== src/Smb/Copying/Ends.antt =====
-- The copy ends, whatever the server answers, and a success has moved every byte once.
use krystallos.Common.{
  ℕ, zero, suc, ◌+◌, ◌-◌, ◌^◌, ◌≤◌, ◌<◌, ◌≡◌, inl, inr, List, Option, none, some, true, false, ◌&&◌,
  ◌==◌, ltb, ltb→lt, Bool-cases, arith, u64_mod, add_u64, add_u64_exact, ℤ, is_zero,
}
use krystallos.Smb.Libsmb2.{Libsmb2, CopyReply}
use krystallos.Smb.Errors.{Errno}
use krystallos.Smb.Copying.{
  Copied, copied, failed, after_chunk, server_loop, copy_fuel, copy_chunk_bytes, copy_server_side,
  with_key,
}

-- What a COPYCHUNK request of `n` bytes at `offset` answers for a session that holds the bytes before it: a
-- 32-bit count, by which it holds more where the request succeeds, and as much as before where it fails.
abbrev pub Chunked : {C : Type 0} → (ℕ → C → Type 0) → ℕ → (ℤ × CopyReply) × C → Type 0
Chunked Holds offset ((rc, reply), c) =
    (reply.total_bytes_written < 2 ^ 32)
    × (is_zero rc ≡ true → Holds (offset + reply.total_bytes_written) c)
    × (is_zero rc ≡ false → Holds offset c)

-- The loop has a result; where it is a success, the session holds as many bytes as the count says, and
-- these are the whole size at least.
abbrev pub Ended : {C : Type 0} → (ℕ → C → Type 0) → ℕ → Option (Copied × C) → Type 0
Ended Holds size none = ⊥
Ended Holds size (some (copied n, c)) = (size ≤ n) × Holds n c
Ended Holds size (some (failed e, c)) = Unit

module _ {C : Type 0} (f : Libsmb2 C) (errno : Errno) (Holds : ℕ → C → Type 0) (key : List ℕ)
    (dst size : ℕ)
    (chunks : (c : C) (offset n : ℕ)
      → 0 < n
      → offset + n ≤ size
      → Holds offset c
      → Chunked Holds offset (f.copychunk c key dst offset n))
    (room : size + 2 ^ 32 ≤ u64_mod) where
  after_chunk-Ended :
      (again : ℕ → ℕ → C → Option (Copied × C)) (offset chunk : ℕ) (out : (ℤ × CopyReply) × C)
      → Chunked Holds offset out
      → offset < size
      → 0 < chunk
      → ((offset' chunk' : ℕ) (c : C)
          → (size - offset') + chunk' < (size - offset) + chunk
          → 0 < chunk'
          → Holds offset' c
          → Ended Holds size (again offset' chunk' c))
      → Ended Holds size (after_chunk f errno again offset chunk out)
  unfolding after_chunk
  after_chunk-Ended again offset chunk ((rc, reply), c) (small, more, same) inside positive k =
      elim (Bool-cases (is_zero rc)) [
        | inl z ↦ elim (Bool-cases (reply.total_bytes_written == 0)) [
          | inl w ↦ rw (z, w) tt
          | inr w ↦
              let e : add_u64 offset reply.total_bytes_written
                  ≡ offset + reply.total_bytes_written =
                add_u64_exact offset reply.total_bytes_written (omega arith) in
              rw (z, w, e)
                (k (offset + reply.total_bytes_written) chunk c (ground (arith, w)) positive
                  (more z))
        ]
        | inr z ↦
            elim (Bool-cases
              (ltb 0 reply.chunk_bytes_written && ltb reply.chunk_bytes_written chunk)) [
                | inl w ↦
                    rw (z, w)
                      (k offset reply.chunk_bytes_written c (ground (arith, w)) (ground (arith, w))
                        (same z))
                | inr w ↦ rw (z, w) tt
              ]
      ]

  server_loop-Ended :
      (fuel offset chunk : ℕ) (c : C)
      → (size - offset) + chunk < fuel
      → 0 < chunk
      → Holds offset c
      → Ended Holds size (server_loop f errno fuel key dst size offset chunk c)
  unfolding server_loop
  server_loop-Ended zero offset chunk c enough positive held = elim enough [ ]
  server_loop-Ended (suc fuel) offset chunk c enough positive held =
      elim (Bool-cases (ltb offset size)) [
        | inl t ↦
            let inside = ltb→lt offset size t in
            rw t (
              after_chunk-Ended (server_loop f errno fuel key dst size) offset chunk _
                (chunks c offset _ (ground arith) (ground arith) held) inside positive
                (λ offset' chunk' c' less p h.
                  server_loop-Ended fuel offset' chunk' c' (omega arith) p h))
        | inr t ↦ rw t (ground (arith, t), held)
      ]

with_key-Ended :
    {C : Type 0} (f : Libsmb2 C) (errno : Errno) (Holds : ℕ → C → Type 0) (size : ℕ)
    (k : List ℕ → C → Option (Copied × C)) (out : (ℤ × List ℕ) × C)
    → ((key : List ℕ) → Ended Holds size (k key out.1))
    → Ended Holds size (with_key f errno k out)
with_key-Ended f errno Holds size k ((rc, key), c) h = elim (Bool-cases (is_zero rc)) [
  | inl z ↦ rw z (h key)
  | inr z ↦ rw z tt
]

-- `Holds k c` is any property that says of the session `c` that the first `k` bytes were copied: it is
-- true of none behind the request for the key; a COPYCHUNK request inside the size, made where the bytes
-- before its offset are copied, answers with a 32-bit count, by which more are copied if it succeeds, and
-- leaves what was copied if it fails. Then, whatever the server answers otherwise, failures at every request
-- and false limits included, the server-side copy ends within its fuel, and if it succeeds, as many bytes
-- as it counts are copied, and they are the whole size at least. The size leaves room for one more
-- 32-bit count below 2^64.
pub copy_server_side-Ended :
    {C : Type 0} (f : Libsmb2 C) (errno : Errno) (Holds : ℕ → C → Type 0) (c : C) (src dst size : ℕ)
    → ((key : List ℕ) (c : C) (offset n : ℕ)
        → 0 < n
        → offset + n ≤ size
        → Holds offset c
        → Chunked Holds offset (f.copychunk c key dst offset n))
    → size + 2 ^ 32 ≤ u64_mod
    → Holds 0 (f.request_resume_key c src).1
    → Ended Holds size (copy_server_side f errno c src dst size)
unfolding copy_server_side
copy_server_side-Ended f errno Holds c src dst size chunks room start =
    with_key-Ended f errno Holds size
      (λ key. server_loop f errno (copy_fuel size) key dst size 0 copy_chunk_bytes)
      (f.request_resume_key c src)
      (λ key.
        server_loop-Ended f errno Holds key dst size (chunks key) room (copy_fuel size) 0
          copy_chunk_bytes (f.request_resume_key c src).1 (omega arith) (omega arith) start)
