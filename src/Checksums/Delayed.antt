-- ===== src/Checksums/Delayed.antt =====
-- `Fletcher32_improved` puts the reduction off for 360 words, and is `Fletcher32` all the same.
use mathlib.Core.WellFounded.{Acc}
use game_network.Base.{
  ℕ, zero, suc, ◌+◌, ◌-◌, ◌*◌, ◌%◌, ◌≤◌, ◌<◌, ◌≡◌, refl, sym, ◌∙◌, ◌≢◌, ap, ap₂, arith, List, [],
  ◌∷◌, ◌++◌, append_assoc, length, length-take, length-drop, fault, take, drop, take-append-drop,
  Result, ok, dec_lt,
}
use game_network.Base.Order.{lt_wf}
use game_network.Checksums.{
  Sums, plain_loop, block_loop, block_loop-few, block_loop-many, size-block_lt, fletcher32,
  fletcher32_improved,
}
use game_network.Checksums.Plain.{
  AreWords, sum_of, sum_of_sums, sum_of-append, sum_of_sums-append, sum_of-mod, sum_of_sums-mod,
  plain_loop-sums, sum, weighted, sum_of-eq, sum_of_sums-eq,
}
use game_network.Checksums.Closed.{fletcher32-sums, joined-eq}

AreWords-take : (n : ℕ) (ws : List ℕ) → AreWords ws → AreWords (take n ws)
AreWords-take zero ws h = tt
AreWords-take (suc n) [] h = tt
AreWords-take (suc n) (w ∷ ws) h = (h.0, AreWords-take n ws h.1)

AreWords-drop : (n : ℕ) (ws : List ℕ) → AreWords ws → AreWords (drop n ws)
AreWords-drop zero ws h = h
AreWords-drop (suc n) [] h = tt
AreWords-drop (suc n) (w ∷ ws) h = AreWords-drop n ws h.1

-- One block of 360 words, without a wrap.
block-sums :
    (a b : ℕ) (ws rest : List ℕ)
    → 360 ≤ length ws
    → AreWords ws
    → a < 65535
    → b < 65535
    → plain_loop 360 (record { rest = ws ++ rest; sum_a = a; sum_b = b })
      ≡ ok (record {
        rest = drop 360 ws ++ rest;
        sum_a = sum_of a (take 360 ws);
        sum_b = sum_of_sums a b (take 360 ws);
      })
block-sums a b ws rest long h p q =
    let full : length (take 360 ws) ≡ 360 = omega (arith, length-take 360 ws) in
    let words : take 360 ws ++ (drop 360 ws ++ rest) ≡ ws ++ rest =
      sym (append_assoc (take 360 ws) (drop 360 ws) rest)
      ∙ ap (λ l. l ++ rest) (take-append-drop 360 ws) in
    ap₂ (λ n r. plain_loop n (record { rest = r; sum_a = a; sum_b = b })) (sym full) (sym words)
    ∙ plain_loop-sums 360 a b (take 360 ws) (drop 360 ws ++ rest) (omega arith)
        (AreWords-take 360 ws h) (omega arith, omega arith)

-- What the blocks leave: fewer than 360 words, and sums that come to the same remainders.
record Left (ws rest : List ℕ) (a b : ℕ) (result : Result (ℕ × Sums)) : Type 0 where
  tail : List ℕ
  a' : ℕ
  b' : ℕ
  returns : result ≡ ok (length tail, record { rest = tail ++ rest; sum_a = a'; sum_b = b' })
  short : length tail < 360
  words : AreWords tail
  small : (a' < 65535) × (b' < 65535)
  same_a : sum_of a' tail % 65535 ≡ sum_of a ws % 65535
  same_b : sum_of_sums a' b' tail % 65535 ≡ sum_of_sums a b ws % 65535

block_loop-Left :
    (size : ℕ) (acc : Acc ◌<◌ size) (a b : ℕ) (ws rest : List ℕ)
    → length ws ≡ size
    → AreWords ws
    → a < 65535
    → b < 65535
    → Left ws rest a b (block_loop size acc (record { rest = ws ++ rest; sum_a = a; sum_b = b }))
block_loop-Left size (Acc.intro _ smaller) a b ws rest e h p q = elim (dec_lt size 360) [
  | yes few ↦ rw (block_loop-few size (Acc.intro size smaller) _ few) (record {
    tail = ws;
    a' = a;
    b' = b;
    returns = rw e;
    short = rw e few;
    words = h;
    small = (p, q);
    same_a = refl;
    same_b = refl;
  })
  | no many ↦
      let xs = take 360 ws in
      let ys = drop 360 ws in
      let size' : length ys ≡ size - 360 = omega (arith, length-drop 360 ws) in
      let l =
        block_loop-Left (size - 360) (smaller (size - 360) (size-block_lt size many))
          (sum_of a xs % 65535) (sum_of_sums a b xs % 65535) ys rest size' (AreWords-drop 360 ws h)
          (omega arith) (omega arith) in
      rw (block_loop-many size smaller _ _ many (block-sums a b ws rest (omega arith) h p q))
        (record {
          tail = l.tail;
          a' = l.a';
          b' = l.b';
          returns = l.returns;
          short = l.short;
          words = l.words;
          small = l.small;
          same_a =
              l.same_a
              ∙ sum_of-mod (sum_of a xs) ys
              ∙ ap (λ n. n % 65535) (sym (sum_of-append a xs ys))
              ∙ ap (λ l. sum_of a l % 65535) (take-append-drop 360 ws);
          same_b =
              l.same_b
              ∙ sum_of_sums-mod (sum_of a xs) (sum_of_sums a b xs) ys
              ∙ ap (λ n. n % 65535) (sym (sum_of_sums-append a b xs ys))
              ∙ ap (λ l. sum_of_sums a b l % 65535) (take-append-drop 360 ws);
        })
]

-- The delayed reduction changes nothing: on 16-bit words, as many as the size says, the improved
-- routine returns what `Fletcher32` returns, and neither faults. So the sums of 32 bits never wrap
-- between two reductions.
pub fletcher32_improved-eq-fletcher32 :
    (ws rest : List ℕ)
    → AreWords ws
    → (fletcher32_improved (ws ++ rest) (length ws) ≡ fletcher32 (ws ++ rest) (length ws))
      × (fletcher32 (ws ++ rest) (length ws) ≢ fault)
unfolding fletcher32_improved
fletcher32_improved-eq-fletcher32 ws rest h =
    (rw (fletcher32-sums ws rest h) improved, rw (fletcher32-sums ws rest h) (λ e. cc))
  where
    l : Left ws rest 0 0 (
        block_loop
          (length ws)
          (lt_wf.apply (length ws))
          (record { rest = ws ++ rest; sum_a = 0; sum_b = 0 }))
    l =
        block_loop-Left (length ws) (lt_wf.apply (length ws)) 0 0 ws rest refl h (omega arith)
          (omega arith)

    improved :
        fletcher32_improved (ws ++ rest) (length ws)
        ≡ ok (65536 * (weighted ws % 65535) + sum ws % 65535)
    improved =
        rw
          (
            l.returns,
            plain_loop-sums 359 l.a' l.b' l.tail rest (omega (arith, l.short)) l.words
                (omega (arith, l.small), omega (arith, l.small)),
            l.same_a,
            l.same_b,
            joined-eq (sum_of 0 ws % 65535) (sum_of_sums 0 0 ws % 65535) (omega arith)
                (omega arith),
          )
          (ap ok (omega (arith, sum_of-eq 0 ws, sum_of_sums-eq 0 0 ws)))
