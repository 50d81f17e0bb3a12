-- ===== src/Packet/Filling.antt =====
-- What packets with a checksum make of its table.
use game_network.Base.{
  ℕ, ◌≡◌, refl, List, ◌⊎◌, inl, inr, Bool-cases, if◌then◌else◌, ok, ◌>>=◌, ◌==◌,
}
use game_network.Base.Int.{ℤ_leb, to_unsigned}
use game_network.Base.Outcomes.{Yields, bind-Yields}
use game_network.Platform.{Host, Crypto}
use game_network.Buffer.{
  Buffer, init, write_integer, read_integer, write_buffer, read_byte, rewind, behind,
}
use game_network.Crc.{Statics, init_table, get_crc_table_based}
use game_network.Packet.{
  PacketType, challenge, write_key_packet, write_challenge, write_header, verify_packet_crc,
  key_packet_size, rounded_public_key_size, protocol_id, packet_type, invalid_packet,
}

module _ (h : Host) (c : Crypto) where
  write_key_packet-Yields :
      (t : PacketType) (key : List ℕ) (s : Statics) (b : Buffer)
      → Yields (λ r. r.1 ≡ init_table s) (write_key_packet h c t key s b)
  unfolding write_key_packet
  write_key_packet-Yields t key s b = bind-Yields _ (init h (key_packet_size h c) b) _ λ b₁.
      bind-Yields _ (write_header h c t b₁) _ λ b₂.
        bind-Yields _ (write_buffer key (rounded_public_key_size h c) b₂) _ λ b₃.
          bind-Yields _
            (get_crc_table_based (init_table s) (behind b₃.memory) (key_packet_size h c)) _
            λ crc. bind-Yields _ (write_integer h crc (rewind b₃)) _ λ b₄. refl

  -- A challenge that is written leaves the table filled.
  pub write_challenge-Yields :
      (key : List ℕ) (s : Statics) (b : Buffer)
      → Yields (λ r. r.1 ≡ init_table s) (write_challenge h c key s b)
  unfolding write_challenge
  write_challenge-Yields = write_key_packet-Yields challenge

  verified-Yields :
      (crc new_crc : ℕ) (s r : Statics) (b : Buffer)
      → r ≡ init_table s
      → Yields
          (λ (p : PacketType × Buffer × Statics). (p.2 ≡ s) ⊎ (p.2 ≡ init_table s))
          (if crc == new_crc
            then (do (byte, b₃) ← read_byte b; ok (packet_type byte, b₃, r))
            else ok (invalid_packet, b, r))
  verified-Yields crc new_crc s r b e = elim (Bool-cases (crc == new_crc)) [
    | inl f ↦ rw f (bind-Yields _ (read_byte b) _ λ p. inr e)
    | inr f ↦ rw f (inr e)
  ]

  -- The check of a packet leaves the table as it is, or filled.
  pub verify_packet_crc-Yields :
      (s : Statics) (b : Buffer)
      → Yields
          (λ (p : PacketType × Buffer × Statics). (p.2 ≡ s) ⊎ (p.2 ≡ init_table s))
          (verify_packet_crc h c s b)
  unfolding verify_packet_crc
  verify_packet_crc-Yields s b = elim (Bool-cases (ℤ_leb b.size 0)) [
    | inl e ↦ rw e (inl refl)
    | inr e ↦ rw e (
        bind-Yields _ (read_integer h b) _ λ p.
          bind-Yields _ (write_integer h protocol_id (rewind p.1)) _ λ b₂.
            bind-Yields _
              (get_crc_table_based (init_table s) (behind b₂.memory) (to_unsigned b₂.size)) _
              λ crc. verified-Yields p.0 crc s (init_table s) b₂ refl)
  ]
