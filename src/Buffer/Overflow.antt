-- ===== src/Buffer/Overflow.antt =====
-- What the unsigned check lets pass.
use game_network.Base.{
  ℕ, zero, suc, ◌+◌, ◌^◌, ◌≤◌, ◌<◌, ◌≡◌, refl, inl, inr, arith, true, List, length, take, drop, leb,
  leb→le, Bool-cases, fault,
}
use game_network.Buffer.{read_bytes, read_loop, read_buffer, has_room}
use game_network.Buffer.Safety.{buffer_at, read_bytes_at}

-- A loop with more rounds than there are bytes of memory leaves the memory, or the output's.
read_loop-fault :
    (left j : ℕ) (out m : List ℕ) (s i : ℕ)
    → i ≤ length m
    → length m < i + left
    → read_loop left j out (buffer_at m s i) ≡ fault
unfolding read_loop
read_loop-fault zero j out m s i p h = absurd (omega arith)
read_loop-fault (suc left) j out m s i p h = elim (Bool-cases (leb (i + 1) (length m))) [
  | inr over ↦ unfold read_bytes in rw over
  | inl fits ↦
      let c = take 1 (drop i m) in
      elim (Bool-cases (leb (j + length c) (length out))) [
        | inr over ↦ rw (read_bytes_at 1 m s i (i + 1) refl (leb→le _ _ fits), over)
        | inl room ↦
            rw (read_bytes_at 1 m s i (i + 1) refl (leb→le _ _ fits), room)
              (read_loop-fault left (j + 1) _ m s (i + 1) (leb→le _ _ fits) (omega arith))
      ]
]

-- `ReadBuffer` asked for so many bytes that the sum with the index wraps to at most the size passes
-- its check and reads outside of the memory, whatever the target has room for.
pub read_buffer_wraps :
    (n : ℕ) (out m : List ℕ) (s i : ℕ)
    → i ≤ s
    → s ≤ length m
    → length m < 2 ^ 31
    → 2 ^ 32 ≤ i + n
    → i + n ≤ s + 2 ^ 32
    → read_buffer out n (buffer_at m s i) ≡ fault
unfolding read_buffer
read_buffer_wraps n out m s i p q r wrap low =
    rw passes (read_loop-fault n 0 out m s i (omega arith) (omega arith))
  where
    passes : has_room n (buffer_at m s i) ≡ true
    passes = ground arith
