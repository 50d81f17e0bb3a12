-- ===== src/Socket/Wire.antt =====
-- What one socket sends and another receives.
use game_network.Base.{
  ℕ, ◌+◌, ◌%◌, ◌^◌, ◌<◌, ◌≡◌, arith, List, [], ◌++◌, some, length, drop, take, ◌≤◌, refl, le→leb,
  gt→leb,
}
use game_network.Base.Int.{pos, negsuc, to_unsigned}
use game_network.Platform.{Host}
use game_network.Address.{Address}
use game_network.Buffer.{load}
use game_network.Buffer.Cursor.{cursor, load_front}
use game_network.Socket.{receive_into}

-- The memory of the receiver's buffer behind a datagram.
abbrev pub slack_of : Host → List ℕ → List ℕ
slack_of h wire = drop (length wire) (h.fresh 1024)

-- A datagram that fits stands at the front of the receiver's buffer.
pub receive_into-cursor :
    (h : Host) (old from : Address) (wire : List ℕ)
    → length wire ≤ 1024
    → receive_into h old (some (from, wire)) ≡ (from, cursor [] wire (slack_of h wire))
unfolding receive_into
receive_into-cursor h old from wire fits =
    let sizes : length wire ≡ 0 + length wire = omega arith in
    rw (le→leb (length wire) 1024 fits) (λ i.
      (from, record { memory = some (wire ++ slack_of h wire); size = pos (sizes i); index = 0 }))

-- One that does not fit is lost: the size is -1, and the sender is not stored.
pub receive_into-lost :
    (h : Host) (old from : Address) (wire : List ℕ)
    → 1024 < length wire
    → receive_into h old (some (from, wire))
      ≡ (old, record { memory = some (take 1024 wire); size = negsuc 0; index = 0 })
unfolding receive_into
receive_into-lost h old from wire over = rw (gt→leb (length wire) 1024 over) refl

-- A packet that has been written to its end is sent whole.
pub load-written :
    (wire : List ℕ)
    → length wire < 2 ^ 32
    → load 0 (to_unsigned (cursor wire [] []).size) (cursor wire [] []).memory ≡ some wire
load-written wire small = load_front ((length wire + 0) % 2 ^ 32) wire [] (omega arith)
