-- ===== src/Handshake/Session.antt =====
-- A whole session: the handshake, and the server's data behind it.
use game_network.Base.{arith, ℕ, ◌≡◌, sym, ◌∙◌, true, false, List}
use game_network.Base.Int.{pos, negsuc, is_positive}
use game_network.Platform.{Host, Crypto, KeyExchange, KeySizes}
use game_network.Address.{Address}
use game_network.Crc.Table
use game_network.Client.{Client, is_disconnected, connect, respond_challenge}
use game_network.Server.{
  Server, find_existing_connection_index, find_existing_challenge_index, find_free_challenge_index,
  find_free_connection_index,
}
use game_network.Server.Listen.{in_lobby}
use game_network.Server.Invariant.{IsValid}
use game_network.Server.Hearing.{listen-IsValid}
use game_network.Server.Joining.{found_connection}
use game_network.Handshake.{handshake, arriving, server_hears, client_hears}
use game_network.Handshake.Connects.{handshake-connects}
use game_network.Handshake.Stream.{Fit, stream, in_order, stream-in_order}

module _ (h : Host) (c : Crypto) (x : KeyExchange) (now p_size : ℕ) (ca sa : Address) where
  handshake-IsValid :
      (cl : Client) (sv : Server) → IsValid sv → IsValid (handshake h c x now p_size ca sa cl sv).1
  unfolding handshake
  handshake-IsValid cl sv valid =
      let cl₁ = (connect h c x cl).0 in
      let sv₁ = server_hears h c x now p_size ca sa cl₁ sv in
      let cl₂ = (respond_challenge h c x (client_hears h c x now p_size ca sa sv₁ cl₁)).0 in
      listen-IsValid h c x now p_size (arriving sa ca cl₂.sent) sv₁
        (listen-IsValid h c x now p_size (arriving sa ca cl₁.sent) sv valid)

  -- A session: a disconnected client with a new `m_ack`, at an address that the server does not know
  -- yet, joins a valid server in the lobby with a free challenge and a free connection, and then hears
  -- each message that the server sends it, whole, once and in their order. Each message fits the
  -- client's buffer of 1024 bytes, with its header and signature, and the room at the caller of
  -- Listen.
  pub session-in_order :
      (sizes : KeySizes c x) (cl : Client) (sv : Server) (v : Table.IsValid cl.statics)
      (w : Table.IsValid sv.statics) (j k : ℕ) (messages : List (List ℕ))
      → is_disconnected cl.state ≡ true
      → cl.ack ≡ 0
      → IsValid sv
      → in_lobby sv ≡ true
      → is_positive (find_existing_connection_index ca sv) ≡ false
      → find_existing_challenge_index ca sv ≡ negsuc 0
      → find_free_challenge_index sv ≡ pos j
      → find_free_connection_index sv ≡ pos k
      → Fit h c x now p_size ca sa k messages
      → let (cl', sv') = handshake h c x now p_size ca sa cl sv in
        stream h c x now p_size ca sa k messages cl' sv'
        ≡ in_order h c x now p_size ca sa k messages
  session-in_order sizes cl sv v w j k messages idle new_ack valid lobby stranger new free room
        fit =
      let (open_end, own, ack, server, joined, counted) =
        handshake-connects h c x sizes now p_size ca sa cl sv v w j k valid lobby stranger new free
          room idle in
      let valid' = handshake-IsValid cl sv valid in
      stream-in_order h c x now p_size ca sa k messages (handshake h c x now p_size ca sa cl sv).0
        (handshake h c x now p_size ca sa cl sv).1
        (record {
          is_open = open_end;
          address = joined.address;
          same_key = joined.shared_key;
          same_number = joined.new_numbers ∙ sym (ack ∙ new_ack);
          number_fits = omega (arith, ack, new_ack);
          has_slot = omega (arith, found_connection sv k room, valid'.connections_size);
        })
        fit
