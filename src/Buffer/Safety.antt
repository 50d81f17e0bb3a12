-- ===== src/Buffer/Safety.antt =====
-- Memory safety of the buffer: what its checks promise, and where the unsigned check fails.
use game_network.Base.{
  ℕ, zero, suc, ◌+◌, ◌^◌, ◌≤◌, ◌<◌, ◌≡◌, refl, ◌∙◌, inl, inr, arith, true, false, List, ◌++◌, some,
  length, length-append, length-take, length-drop, take, drop, leb, le→leb, leb→le, Bool-cases,
  Result, ok, throws, fault, out_of_range, ◌>>=◌, if◌then◌else◌,
}
use game_network.Base.Int.{pos, leb_ℤ}
use game_network.Buffer.{Buffer, write_bytes, read_bytes, write_loop, read_loop}

-- The buffer at `m`, of which the first `s` bytes are declared, at index `i`.
abbrev pub buffer_at : List ℕ → ℕ → ℕ → Buffer
buffer_at m s i = record { memory = some m; size = pos s; index = i }

-- The buffer has memory, the declared bytes lie in it, and the cursor lies in those.
pub data IsValid : Buffer → Type 0 where
  valid : (m : List ℕ) (s i : ℕ) → s ≤ length m → i ≤ s → s < 2 ^ 31 → IsValid (buffer_at m s i)

-- What an operation of `n` bytes does at `b`: it throws exactly when the bytes are not there, and
-- otherwise moves the index over them and leaves a valid buffer of the same size.
pub data Outcome (n : ℕ) (b : Buffer) : Result Buffer → Type 0 where
  refused : leb_ℤ (b.index + n) b.size ≡ false → Outcome n b (throws out_of_range)
  moved :
      {b' : Buffer}
      → leb_ℤ (b.index + n) b.size ≡ true
      → IsValid b'
      → b'.index ≡ b.index + n
      → b'.size ≡ b.size
      → Outcome n b (ok b')

-- The buffer that a read leaves, without what it read.
abbrev pub after {ℓ} : {A : Type ℓ} → Result (A × Buffer) → Result Buffer
after (ok (a, b)) = ok b
after (throws e) = throws e
after fault = fault

after-value :
    (r : Result (List ℕ × Buffer)) (f : List ℕ → ℕ)
    → after (do (bs, b') ← r; ok (f bs, b')) ≡ after r
after-value (ok (bs, b)) f = refl
after-value (throws e) f = refl
after-value fault f = refl

length-store :
    (i : ℕ) (bs m : List ℕ)
    → i + length bs ≤ length m
    → length (take i m ++ (bs ++ drop (i + length bs) m)) ≡ length m
length-store i bs m h = omega (
  arith,
  length-append (take i m) (bs ++ drop (i + length bs) m),
  length-append bs (drop (i + length bs) m),
  length-take i m,
  length-drop (i + length bs) m,
)

pub write_bytes_at :
    (bs m : List ℕ) (s i k : ℕ)
    → i + length bs ≡ k
    → k ≤ length m
    → (m' : List ℕ) × (length m' ≡ length m)
      × (write_bytes bs (buffer_at m s i) ≡ ok (buffer_at m' s k))
unfolding write_bytes
write_bytes_at bs m s i k e h = rw (← e) (
  take i m ++ (bs ++ drop (i + length bs) m),
  length-store i bs m (rw e h),
  rw (le→leb (i + length bs) (length m) (rw e h)),
)

pub read_bytes_at :
    (n : ℕ) (m : List ℕ) (s i k : ℕ)
    → i + n ≡ k
    → k ≤ length m
    → read_bytes n (buffer_at m s i) ≡ ok (take n (drop i m), buffer_at m s k)
unfolding read_bytes
read_bytes_at n m s i k e h = rw (← e) (rw (le→leb (i + n) (length m) (rw e h)))

-- The checks of fixed width.
module _ (m : List ℕ) (s i : ℕ) (in_memory : s ≤ length m) (passed : i ≤ s)
    (small : s < 2 ^ 31) where
  pub fixed_write :
      (n : ℕ) (bs : List ℕ)
      → length bs ≡ n
      → Outcome n
          (buffer_at m s i)
          (if leb (i + n) s then write_bytes bs (buffer_at m s i) else throws out_of_range)
  fixed_write n bs e = elim (Bool-cases (leb (i + n) s)) [
    | inl fits ↦
        let h : i + n ≤ s = leb→le _ _ fits in
        let (m', same, r) = write_bytes_at bs m s i (i + n) (rw e) (omega arith) in
        rw (fits, r) (moved fits (valid m' s (i + n) (rw same in_memory) h small) refl refl)
    | inr over ↦ rw over (refused over)
  ]

  pub fixed_read :
      (n : ℕ) (f : List ℕ → ℕ)
      → Outcome n (buffer_at m s i) (
          after (
            if leb (i + n) s
            then (do (bs, b') ← read_bytes n (buffer_at m s i); ok (f bs, b'))
            else throws out_of_range))
  fixed_read n f = elim (Bool-cases (leb (i + n) s)) [
    | inl fits ↦
        let h : i + n ≤ s = leb→le _ _ fits in
        rw (fits, read_bytes_at n m s i (i + n) refl (omega arith))
          (moved fits (valid m s (i + n) in_memory h small) refl refl)
    | inr over ↦ rw over (refused over)
  ]

pub write_loop_at :
    (left j : ℕ) (source m : List ℕ) (s i k : ℕ)
    → i + left ≡ k
    → k ≤ length m
    → j + left ≤ length source
    → (m' : List ℕ) × (length m' ≡ length m)
      × (write_loop left j source (buffer_at m s i) ≡ ok (buffer_at m' s k))
unfolding write_loop
write_loop_at zero j source m s i k e h t = let e' : i ≡ k = omega arith in (m, refl, rw e')
write_loop_at (suc left) j source m s i k e h t =
    let one : length (take 1 (drop j source)) ≡ 1 =
      omega (arith, length-take 1 (drop j source), length-drop j source) in
    let (m₁, same, r) =
      write_bytes_at (take 1 (drop j source)) m s i (i + 1) (rw one) (omega arith) in
    let (m₂, same', r') =
      write_loop_at left (j + 1) source m₁ s (i + 1) k (omega arith) (omega arith) (omega arith) in
    (m₂, same' ∙ same, rw (le→leb (j + 1) (length source) (omega arith), r) r')

pub read_loop_at :
    (left j : ℕ) (out m : List ℕ) (s i k : ℕ)
    → i + left ≡ k
    → k ≤ length m
    → j + left ≤ length out
    → (out' : List ℕ) × (read_loop left j out (buffer_at m s i) ≡ ok (out', buffer_at m s k))
unfolding read_loop
read_loop_at zero j out m s i k e h t = let e' : i ≡ k = omega arith in (out, rw e')
read_loop_at (suc left) j out m s i k e h t =
    let c = take 1 (drop i m) in
    let one : length c ≡ 1 = omega (arith, length-take 1 (drop i m), length-drop i m) in
    let fits : j + length c ≤ length out = omega arith in
    let (out', r) =
      read_loop_at left (j + 1) (take j out ++ (c ++ drop (j + length c) out)) m s (i + 1) k
        (omega arith) (omega arith) (omega (arith, length-store j c out fits)) in
    (
      out',
      rw (read_bytes_at 1 m s i (i + 1) refl (omega arith), le→leb (j + length c) (length out) fits)
          r,
    )
