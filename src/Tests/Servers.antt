-- ===== src/Tests/Servers.antt =====
-- The theorems on the server alone.
use game_network.Base.{◌≡◌, refl, false, [], ◌∷◌, some, ℕ, zero, suc, ◌≢◌, List}
use game_network.Base.Int.{pos, negsuc}
use game_network.Server.{
  first_index, find_existing_connection_index, find_existing_challenge_index,
  find_free_challenge_index,
}
use game_network.Server.Listen.{listen}
use game_network.Server.Invariant
use game_network.Server.Hearing.{listen-IsValid}
use game_network.Server.Evicting.{passes, request-evicts}
use game_network.Crc.{program_start}
use game_network.Crc.Table.{program_start-IsValid}
use game_network.Packet.{connection_request}
use game_network.Packet.Keys
use game_network.Tests.Ends.{sizes, carol}
use game_network.Tests.{host, crypto, exchange, alice, busy, busy-IsValid}

abbrev request : List ℕ
request =
    Keys.wire_of host crypto exchange sizes 6 program_start program_start-IsValid connection_request

no_other : (i : ℕ) → 1 ≢ i → passes alice busy i ≡ false
no_other zero ne = refl
no_other (suc zero) ne = absurd (ne refl)
no_other (suc (suc zero)) ne = refl
no_other (suc (suc (suc zero))) ne = refl
no_other (suc (suc (suc (suc i)))) ne = refl

request-evicts_example :
    let s' = (listen host crypto exchange 9 64 (some (carol, request)) busy).0 in
    (find_existing_challenge_index alice s' ≡ negsuc 0)
    × (find_existing_challenge_index carol s' ≡ pos 1)
unfolding find_existing_connection_index find_existing_challenge_index find_free_challenge_index
    first_index
request-evicts_example =
    request-evicts host crypto exchange sizes 9 carol alice 64 busy 6 0 program_start
      program_start-IsValid program_start-IsValid busy-IsValid refl refl refl refl refl no_other
      refl

listen-IsValid_example :
    Invariant.IsValid (listen host crypto exchange 9 64 (some (alice, 1 ∷ 2 ∷ [])) busy).0
listen-IsValid_example =
    listen-IsValid host crypto exchange 9 64 (some (alice, 1 ∷ 2 ∷ [])) busy busy-IsValid
