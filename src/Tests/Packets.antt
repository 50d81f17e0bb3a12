-- ===== src/Tests/Packets.antt =====
-- The theorems on the buffers, the checksums, the packets and the addresses.
use game_network.Base.{
  ℕ, ◌+◌, ◌*◌, ◌%◌, ◌^◌, ◌≡◌, refl, ◌∙◌, arith, true, false, List, [], ◌∷◌, ◌++◌, length,
  length-append, ==_iff, ok, fault, ◌>>=◌, ◌≢◌, ap, some, ◌-◌,
}
use game_network.Base.Bytes.{be_bytes, le_bytes, le_value, be_value}
use game_network.Address.Decimal.{to_string}
use game_network.Address.Text.{
  TextAddress, dotted, from_text, to_text, numbers, numbers-dotted, text_roundtrip,
}
use game_network.Buffer.Float.{
  FloatOrder, float_of, write_float, read_float, write_float-read_float,
}
use game_network.Buffer.{Buffer, no_buffer, read_buffer, rewind}
use game_network.Buffer.Safety.{buffer_at}
use game_network.Buffer.Cursor.{cursor}
use game_network.Buffer.Overflow.{read_buffer_wraps}
use game_network.Checksums.{adler32, fletcher32, fletcher32_improved}
use game_network.Checksums.Plain.{sum, weighted}
use game_network.Checksums.Closed.{fletcher32-sums, adler32-sums}
use game_network.Checksums.Delayed.{fletcher32_improved-eq-fletcher32}
use game_network.Crc.{
  program_start, init_table, get_crc, get_crc_table_based, reverse_bits, reverse_loop, u32,
}
use game_network.Base.{◌<◌}
use game_network.Base.Order.{lt_wf}
use game_network.Crc.Reverse.{reversed, reverse_bits-eq}
use game_network.Crc.Table.{program_start-IsValid, get_crc_table_based-eq-get_crc}
use game_network.Packet.{
  protocol_id, connection_request, challenge, connection_data, disconnect, write_connection_data,
  read_connection_data, write_connection_request, write_challenge, verify_packet_crc,
  sequence_greater_than, packet_type,
}
use game_network.Packet.Header.{header, length-header}
use game_network.Packet.Signed.{verify_packet_hmac-accepts, verify_packet_hmac-authentic}
use game_network.Packet.Control.{sent, receive}
use game_network.Packet.Data.{connection_data_roundtrip}
use game_network.Packet.Exchange.{Holds, receive_key, key_roundtrip, verify_packet_crc_sound}
use game_network.Packet.Checked.{checksum, unchecked, verify_packet_crc-eq}
use game_network.Packet.Sequence.{sequence_greater_than-window}
use game_network.Tests.{
  alice, swapped, host, crypto, key, data_packet, leave_text, words, request_crc,
}

connection_data_roundtrip_example :
    (wire : List ℕ) × (write_connection_data host crypto data_packet key no_buffer
      ≡ ok (sent host crypto wire))
    × (receive host crypto (read_connection_data host crypto) key (cursor [] wire (0 ∷ []))
        ≡ ok (connection_data, data_packet))
connection_data_roundtrip_example =
    connection_data_roundtrip host crypto data_packet
      (record { sequence_fits = omega arith; has_size = refl }) (omega arith) key (0 ∷ [])

verify_packet_hmac-authentic_example : crypto.hmac key leave_text ≡ crypto.hmac key leave_text
verify_packet_hmac-authentic_example =
    verify_packet_hmac-authentic host crypto key leave_text (crypto.hmac key leave_text) []
      disconnect (cursor (header disconnect) (8 ∷ crypto.hmac key leave_text) [])
      (omega (arith, length-append (header disconnect) (8 ∷ []), length-header disconnect)) refl
      (omega (arith, length-append (header disconnect) (8 ∷ []), length-header disconnect))
      (verify_packet_hmac-accepts host crypto key disconnect (8 ∷ []) [] tt (omega arith)) (λ e. cc)

key_roundtrip_example :
    (b b' : Buffer) × (wire wire' : List ℕ) × (write_connection_request host crypto key
        program_start no_buffer
      ≡ ok (b, init_table program_start))
    × Holds b wire
    × (receive_key host crypto program_start (cursor [] wire (7 ∷ []))
        ≡ ok (connection_request, key))
    × (write_challenge host crypto key program_start no_buffer ≡ ok (b', init_table program_start))
    × Holds b' wire'
    × (receive_key host crypto program_start (cursor [] wire' (7 ∷ [])) ≡ ok (challenge, key))
key_roundtrip_example =
    key_roundtrip host crypto program_start program_start program_start-IsValid
      program_start-IsValid key (7 ∷ []) (omega arith, (omega arith, tt)) (omega arith)
      (omega arith)

get_crc_table_based-eq-get_crc_example :
    get_crc_table_based (init_table program_start) (1 ∷ 200 ∷ []) 2 ≡ get_crc (1 ∷ 200 ∷ []) 2
get_crc_table_based-eq-get_crc_example =
    get_crc_table_based-eq-get_crc program_start (1 ∷ 200 ∷ []) 2 program_start-IsValid
      (omega arith, (omega arith, tt))

reverse_bits-eq_example :
    ((reverse_loop 6 (lt_wf.apply 6) 6 32).1 < 32)
    × (reverse_bits 6 32 ≡ u32 (6 * 2 ^ 32 + reversed 32 6))
reverse_bits-eq_example = reverse_bits-eq 6 32 (omega arith) (omega arith) (λ e. omega (arith, e))

fletcher32_improved-eq-fletcher32_example :
    (fletcher32_improved (words ++ 4 ∷ []) 3 ≡ fletcher32 (words ++ 4 ∷ []) 3)
    × (fletcher32 (words ++ 4 ∷ []) 3 ≢ fault)
fletcher32_improved-eq-fletcher32_example =
    fletcher32_improved-eq-fletcher32 words (4 ∷ []) (omega arith, (omega arith, (omega arith, tt)))

fletcher32-sums_example :
    fletcher32 words 3 ≡ ok (65536 * (weighted words % 65535) + sum words % 65535)
fletcher32-sums_example = fletcher32-sums words [] (omega arith, (omega arith, (omega arith, tt)))

adler32-sums_example :
    adler32 words 3 ≡ ok (65536 * ((3 + weighted words) % 65521) + (1 + sum words) % 65521)
adler32-sums_example = adler32-sums words [] (omega arith, (omega arith, (omega arith, tt)))

abbrev float_order : FloatOrder
float_order = record {
  htonf = (swapped 4).hton;
  ntohf = (swapped 4).ntoh;
  htonf_bytes = λ v p. (swapped 4).hton_bytes v p;
  ntohf_bytes = λ v p. (swapped 4).ntoh_bytes v p;
}

read_buffer_wraps_example : read_buffer (0 ∷ []) 4294967295 (buffer_at (1 ∷ 2 ∷ 3 ∷ []) 3 2) ≡ fault
read_buffer_wraps_example =
    read_buffer_wraps 4294967295 (0 ∷ []) (1 ∷ 2 ∷ 3 ∷ []) 3 2 (omega arith) (omega arith)
      (omega arith) (omega arith) (omega arith)

sequence_greater_than-window_example :
    (sequence_greater_than 4 65530 ≡ true) × (sequence_greater_than 65530 4 ≡ false)
sequence_greater_than-window_example =
    sequence_greater_than-window 65530 10 (omega arith) (omega arith) (omega arith)

request_passes :
    verify_packet_crc host crypto program_start (cursor [] (be_bytes 4 request_crc ++ 1 ∷ []) [])
    ≡ ok (
      connection_request,
      cursor (be_bytes 4 protocol_id ++ 1 ∷ []) [] [],
      init_table program_start,
    )
unfolding packet_type
request_passes =
    verify_packet_crc-eq host crypto program_start request_crc 1 [] [] program_start-IsValid
      (checksum (1 ∷ [])).is_word (omega arith, tt) (omega arith)
    ∙ rw ((==_iff request_crc request_crc).1 refl)

verify_packet_crc_sound_example :
    get_crc (unchecked (1 ∷ [])) (length (unchecked (1 ∷ []))) ≡ ok request_crc
verify_packet_crc_sound_example =
    verify_packet_crc_sound host crypto program_start (init_table program_start) request_crc 1 [] []
      connection_request (cursor (be_bytes 4 protocol_id ++ 1 ∷ []) [] []) program_start-IsValid
      (checksum (1 ∷ [])).is_word (omega arith, tt) (omega arith) request_passes (λ e. cc)

abbrev numeric : TextAddress
numeric = record {
  inet_pton = λ text. some (numbers 4 text);
  inet_pton_dotted = λ a b c d p q r s. ap some (numbers-dotted a b c d p q r s);
}

text_roundtrip_example :
    let text = dotted 192 168 1 1 in
    (to_text alice ≡ text ++ b':' ∷ to_string 8756) × (from_text host numeric text 8756 ≡ alice)
text_roundtrip_example = text_roundtrip host numeric alice (omega arith)

alice_text :
    to_text alice
    ≡ b'1' ∷ b'9' ∷ b'2' ∷ b'.' ∷ b'1' ∷ b'6' ∷ b'8' ∷ b'.' ∷ b'1' ∷ b'.' ∷ b'1' ∷ b':' ∷ b'8'
      ∷ b'7' ∷ b'5' ∷ b'6' ∷ []
unfolding to_text to_string
alice_text = refl

-- The number with the bytes of 1.0f, as a float; and numbers that need rounding.
float_of_rounded :
    (float_of 32831 ≡ 0x47003f00)
    × (float_of (2 ^ 24 + 1) ≡ float_of (2 ^ 24))
    × (float_of (2 ^ 32 - 1) ≡ 0x4f800000)
unfolding float_of
float_of_rounded = (refl, refl, refl)

-- 1.0f comes back as 0.0f.
float_one_lost :
    (do
      b ← write_float float_order 0x3f800000 (cursor [] (1 ∷ 2 ∷ 3 ∷ 4 ∷ []) [])
      (w, b') ← read_float float_order (rewind b)
      ok w)
    ≡ ok 0
unfolding float_of le_value be_value le_bytes be_bytes
float_one_lost =
    write_float-read_float float_order [] [] (omega arith) 0x3f800000 (1 ∷ 2 ∷ 3 ∷ 4 ∷ []) refl
