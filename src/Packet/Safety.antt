-- ===== src/Packet/Safety.antt =====
-- The checks of packets, and the reading of a key, at what may arrive: they have a value or throw
-- what is caught.
use game_network.Base.{
  ℕ, zero, suc, ◌+◌, ◌-◌, ◌/◌, ◌%◌, ◌^◌, ◌≤◌, ◌<◌, ◌≡◌, ◌≢◌, refl, sym, ap, subst, arith, false,
  inl, inr, Bool-cases, List, [], ◌∷◌, ◌++◌, length, length-append, length-replicate, get_elem?,
  some, leb, if◌then◌else◌, ◌==◌, Result, ok, throws, fault, out_of_range, exception_pointer, ◌>>=◌,
  replicate, bit_xor,
}
use game_network.Base.Int.{ℤ_leb, to_unsigned}
use game_network.Base.Outcomes.{Ends, bind-Ends}
use game_network.Platform.{Host, Crypto}
use game_network.Buffer.{Buffer, read_integer, read_byte, write_integer, rewind, behind}
use game_network.Buffer.Cursor.{cursor}
use game_network.Buffer.Safety.{IsValid, valid, Outcome, refused, moved, after}
use game_network.Buffer.Contract.{
  serve, serve-Outcome, get_integer, get_byte, put_integer, get_block,
}
use game_network.Crc.{
  Statics, init_table, get_crc_table_based, table_based_loop, reverse_bits, all_ones,
}
use game_network.Crc.Table
use game_network.Crc.Table.{init_table-IsFilled}
use game_network.Packet.{
  PacketType, invalid_packet, packet_type, protocol_id, verify_packet_crc, verify_packet_hmac,
  read_public_key, read_connection_accepted, same_bytes, rounded_public_key_size,
}
use game_network.Packet.Header.{parts}
use game_network.Packet.Signed.{read_type, verify_packet_hmac-eq}

-- What was read is not looked at.
forget : {A : Type 0} (r : Result (A × Buffer)) → Ends (λ p. IsValid p.1) r → Ends (λ _. Unit {0}) r
forget (ok p) w = tt
forget (throws out_of_range) w = tt
forget (throws exception_pointer) w = w
forget fault w = w

read-Ends :
    {A : Type 0} (n : ℕ) (b : Buffer) (r : Result (A × Buffer))
    → Outcome n b (after r)
    → Ends (λ p. IsValid p.1) r
read-Ends n b (ok (a, b')) (moved e v i s) = v
read-Ends n b (throws out_of_range) o = tt
read-Ends n b (throws exception_pointer) o = elim o [ ]
read-Ends n b fault o = elim o [ ]

write-Ends : (n : ℕ) (b : Buffer) (r : Result Buffer) → Outcome n b r → Ends IsValid r
write-Ends n b _ (refused e) = tt
write-Ends n b _ (moved e v i s) = v

rewind-IsValid : {b : Buffer} → IsValid b → IsValid (rewind b)
rewind-IsValid (valid m s i p q r) = valid m s 0 p (omega arith) r

present : {A : Type 0} (xs : List A) (i : ℕ) → i < length xs → (a : A) × (get_elem? xs i ≡ some a)
present [] i lt = absurd (omega arith)
present (x ∷ xs) zero lt = (x, refl)
present (x ∷ xs) (suc i) lt = present xs i (omega arith)

table_based_loop-Ends :
    (table : List ℕ) (left i : ℕ) (bytes : List ℕ) (r : ℕ)
    → length table ≡ 256
    → i + left ≤ length bytes
    → Ends (λ _. Unit {0}) (table_based_loop table left i bytes r)
unfolding table_based_loop
table_based_loop-Ends table zero i bytes r full there = tt
table_based_loop-Ends table (suc left) i bytes r full there =
    let (b, e) = present bytes i (omega arith) in
    let (t, f) =
      present table (bit_xor (reverse_bits b 8) (r / 2 ^ 24) % 2 ^ 8) (omega (arith, full)) in
    rw (e, f) (table_based_loop-Ends table left (i + 1) bytes _ full (omega arith))

get_crc_table_based-Ends :
    (s : Statics) (b : Buffer)
    → length s.table ≡ 256
    → IsValid b
    → Ends (λ _. Unit {0}) (get_crc_table_based s (behind b.memory) (to_unsigned b.size))
unfolding get_crc_table_based
get_crc_table_based-Ends s _ full (valid m n i p q r) =
    bind-Ends _ _ (table_based_loop s.table (n % 2 ^ 32) 0 m all_ones) _
      (table_based_loop-Ends s.table (n % 2 ^ 32) 0 m all_ones full (omega arith)) λ v u. tt

-- A packet that is not rejected leaves a buffer to read from.
abbrev pub Readable : PacketType × Buffer → Type 0
Readable p = p.0 ≢ invalid_packet → IsValid p.1

module _ (h : Host) (c : Crypto) where
  verified-Ends :
      (crc new_crc : ℕ) (s : Statics) (b : Buffer)
      → IsValid b
      → Ends
          (λ (p : PacketType × Buffer × Statics). Readable (p.0, p.1))
          (if crc == new_crc
            then (do (byte, b₃) ← read_byte b; ok (packet_type byte, b₃, s))
            else ok (invalid_packet, b, s))
  unfolding serve
  verified-Ends crc new_crc s b v = elim (Bool-cases (crc == new_crc)) [
    | inl f ↦ rw f (
        bind-Ends (λ p. IsValid p.1) _ (read_byte b) _
          (read-Ends 1 b (read_byte b) (serve-Outcome h get_byte tt v)) λ p w _. w)
    | inr f ↦ rw f (λ ne. absurd (ne refl))
  ]

  pub verify_packet_crc-Ends :
      (s : Statics) (b : Buffer)
      → Table.IsValid s
      → (ℤ_leb b.size 0 ≡ false → IsValid b)
      → Ends
          (λ (p : PacketType × Buffer × Statics). Readable (p.0, p.1))
          (verify_packet_crc h c s b)
  unfolding verify_packet_crc serve
  verify_packet_crc-Ends s b v full = elim (Bool-cases (ℤ_leb b.size 0)) [
    | inl e ↦ rw e (λ ne. absurd (ne refl))
    | inr e ↦ rw e (
        bind-Ends (λ p. IsValid p.1) _ (read_integer h b) _
          (read-Ends 4 b (read_integer h b) (serve-Outcome h get_integer tt (full e)))
          λ p w.
            bind-Ends IsValid _ (write_integer h protocol_id (rewind p.1)) _
              (write-Ends 4 (rewind p.1) _
                (serve-Outcome h (put_integer protocol_id) tt (rewind-IsValid w)))
              λ b₂ w₂.
                bind-Ends (λ _. Unit {0}) _
                  (get_crc_table_based (init_table s) (behind b₂.memory) (to_unsigned b₂.size)) _
                  (get_crc_table_based-Ends (init_table s) b₂ (init_table-IsFilled s v).0.entries
                    w₂)
                  λ crc u. verified-Ends p.0 crc (init_table s) b₂ w₂)
  ]

  pub read_public_key-Ends :
      (b : Buffer)
      → rounded_public_key_size h c < 2 ^ 31
      → IsValid b
      → Ends (λ _. Unit {0}) (read_public_key h c b)
  unfolding read_public_key serve
  read_public_key-Ends b small v = forget (read_public_key h c b) (
      read-Ends (rounded_public_key_size h c) b _ (
        serve-Outcome h (get_block (replicate c.key_memory 0) (rounded_public_key_size h c))
          (omega (arith, c.key_fits, length-replicate {A = ℕ} c.key_memory 0), small) v))

  pub read_connection_accepted-Ends :
      (b : Buffer) → IsValid b → Ends (λ _. Unit {0}) (read_connection_accepted h c b)
  unfolding read_connection_accepted serve
  read_connection_accepted-Ends b v =
      forget (read_integer h b)
        (read-Ends 4 b (read_integer h b) (serve-Outcome h get_integer tt v))

  read_type-Ends : (b : Buffer) → IsValid b → Ends Readable (read_type h c b)
  unfolding serve
  read_type-Ends b v =
      bind-Ends (λ p. IsValid p.1) _ (read_integer h b) _
        (read-Ends 4 b (read_integer h b) (serve-Outcome h get_integer tt v)) λ p w. typed p.0 p.1 w
    where
      typed :
          (id : ℕ) (b₁ : Buffer)
          → IsValid b₁
          → Ends Readable (
              if id == protocol_id
              then (do (byte, b₂) ← read_byte b₁; ok (packet_type byte, b₂))
              else ok (invalid_packet, b₁))
      typed id b₁ w = elim (Bool-cases (id == protocol_id)) [
        | inl f ↦ rw f (
            bind-Ends (λ p. IsValid p.1) _ (read_byte b₁) _
              (read-Ends 1 b₁ (read_byte b₁) (serve-Outcome h get_byte tt w)) λ p u _. u)
        | inr f ↦ rw f (λ ne. absurd (ne refl))
      ]

  -- A datagram in the receiver's memory.
  pub datagram-IsValid :
      (wire slack : List ℕ) → length wire < 2 ^ 31 → IsValid (cursor [] wire slack)
  datagram-IsValid wire slack small =
      valid (wire ++ slack) (0 + length wire) 0 (omega (arith, length-append wire slack))
        (omega arith) (omega arith)

  pub verify_packet_hmac-Ends :
      (key wire slack : List ℕ)
      → length wire < 2 ^ 31
      → Ends Readable (verify_packet_hmac h c key (cursor [] wire slack))
  verify_packet_hmac-Ends key wire slack small =
      elim (Bool-cases (leb (0 + length wire) c.hmac_size)) [
        | inl e ↦ unfold verify_packet_hmac in rw e (λ ne. absurd (ne refl))
        | inr e ↦
            let p = parts (length wire - c.hmac_size) c.hmac_size wire (ground arith) in
            let some_text : 0 < length p.front = ground (arith, p.length_front) in
            let fits : length p.front + c.hmac_size < 2 ^ 31 = ground (arith, p.length_front) in
            subst (λ l. Ends Readable (verify_packet_hmac h c key (cursor [] l slack)))
              (sym p.is_both)
              (rw (verify_packet_hmac-eq h c key p.front p.back slack some_text p.length_back fits)
                (compared p.front p.back (omega (arith, small, ap length p.is_both))))
      ]
    where
      compared :
          (text tag : List ℕ)
          → length (text ++ tag) < 2 ^ 31
          → Ends Readable (
              if same_bytes c.hmac_size (c.hmac key text) tag
              then read_type h c (cursor [] (text ++ tag) slack)
              else ok (invalid_packet, cursor [] (text ++ tag) slack))
      compared text tag lt = elim (Bool-cases (same_bytes c.hmac_size (c.hmac key text) tag)) [
        | inl f ↦ rw f (read_type-Ends _ (datagram-IsValid (text ++ tag) slack lt))
        | inr f ↦ rw f (λ ne. absurd (ne refl))
      ]
