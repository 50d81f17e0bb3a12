-- ===== src/Packet/Sequence.antt =====
-- The order of sequence numbers around the wrap.
use game_network.Base.{ℕ, ◌+◌, ◌%◌, ◌^◌, ◌≤◌, ◌<◌, ◌≡◌, ◌≢◌, arith, true, false, not}
use game_network.Packet.{sequence_greater_than}

-- A number is newer than those up to 32767 before it, across the wrap, and older than those up to
-- 32767 after it.
pub sequence_greater_than-window :
    (s d : ℕ)
    → s < 2 ^ 16
    → 0 < d
    → d ≤ 32767
    → (sequence_greater_than ((s + d) % 2 ^ 16) s ≡ true)
      × (sequence_greater_than s ((s + d) % 2 ^ 16) ≡ false)
unfolding sequence_greater_than
sequence_greater_than-window s d p q r = (ground arith, ground arith)

-- Of two different numbers exactly one is newer, and no number is newer than itself.
pub sequence_greater_than-total :
    (s t : ℕ)
    → s < 2 ^ 16
    → t < 2 ^ 16
    → s ≢ t
    → (sequence_greater_than s t ≡ not (sequence_greater_than t s))
      × (sequence_greater_than s s ≡ false)
unfolding sequence_greater_than
sequence_greater_than-total s t p q ne = (ground arith, ground arith)
