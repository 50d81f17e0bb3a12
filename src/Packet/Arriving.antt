-- ===== src/Packet/Arriving.antt =====
-- What a socket hands on can be checked: with a key, and with the checksum.
use game_network.Base.{ℕ, ◌≤◌, refl, arith, List, [], Option, none, some, length}
use game_network.Base.Int.{negsuc}
use game_network.Base.Outcomes.{Ends}
use game_network.Platform.{Host, Crypto}
use game_network.Address.{Address}
use game_network.Buffer.{Buffer, new_buffer}
use game_network.Buffer.Cursor.{cursor}
use game_network.Crc.{Statics}
use game_network.Crc.Table
use game_network.Packet.{PacketType, verify_packet_crc, verify_packet_hmac}
use game_network.Packet.Safety.{
  Readable, verify_packet_crc-Ends, verify_packet_hmac-Ends, datagram-IsValid,
}
use game_network.Socket.{receive_into}
use game_network.Socket.Wire.{slack_of, receive_into-cursor}

-- A datagram of at most the size of the receiver's buffer, or none.
abbrev pub Fits : Option (Address × List ℕ) → Type 0
Fits none = Unit {0}
Fits (some (from, bytes)) = length bytes ≤ 1024

module _ (h : Host) (c : Crypto) where
  -- Each of the two checks has a value, and a buffer to read from where it rejects nothing, or throws
  -- what is caught.
  pub record IsCheckable (b : Buffer) : Type 0 where
    pub by_key : (key : List ℕ) → Ends Readable (verify_packet_hmac h c key b)
    pub by_checksum :
        (s : Statics)
        → Table.IsValid s
        → Ends
            (λ (p : PacketType × Buffer × Statics). Readable (p.0, p.1))
            (verify_packet_crc h c s b)

  received-IsCheckable :
      (wire slack : List ℕ) → length wire ≤ 1024 → IsCheckable (cursor [] wire slack)
  received-IsCheckable wire slack fits = record {
    by_key = λ key. verify_packet_hmac-Ends h c key wire slack (omega arith);
    by_checksum = λ s v.
        verify_packet_crc-Ends h c s (cursor [] wire slack) v
          λ e. datagram-IsValid h c wire slack (omega arith);
  }

  -- Where nothing has been received, the size is -1.
  nothing-IsCheckable :
      (m : Option (List ℕ)) → IsCheckable (record { memory = m; size = negsuc 0; index = 0 })
  unfolding verify_packet_hmac
  nothing-IsCheckable m = record {
    by_key = λ key ne. absurd (ne refl);
    by_checksum = λ s v.
        verify_packet_crc-Ends h c s (record { memory = m; size = negsuc 0; index = 0 }) v
          λ e. absurd (cc e);
  }

  unheard-IsCheckable : (old : Address) → IsCheckable (receive_into h old none).1
  unfolding receive_into new_buffer
  unheard-IsCheckable old = nothing-IsCheckable _

  heard-IsCheckable :
      (old from : Address) (wire : List ℕ)
      → length wire ≤ 1024
      → IsCheckable (receive_into h old (some (from, wire))).1
  heard-IsCheckable old from wire fits =
      rw (receive_into-cursor h old from wire fits)
        (received-IsCheckable wire (slack_of h wire) fits)

  pub arrived-IsCheckable :
      (old : Address) (datagram : Option (Address × List ℕ))
      → Fits datagram
      → IsCheckable (receive_into h old datagram).1
  arrived-IsCheckable old none fits = unheard-IsCheckable old
  arrived-IsCheckable old (some (from, wire)) fits = heard-IsCheckable old from wire fits
