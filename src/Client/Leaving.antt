-- ===== src/Client/Leaving.antt =====
-- What SendDisconnect sends.
use game_network.Base.{
  arith, ℕ, zero, suc, ◌-◌, ◌^◌, ◌<◌, ◌≡◌, refl, sym, ap, ◌∙◌, true, false, ◌||◌, List, [], ◌∷◌,
  ◌++◌, append_assoc, append-nil, length, replicate, ok,
}
use game_network.Platform.{Host, Crypto, KeyExchange}
use game_network.Address.{Address}
use game_network.Buffer.Cursor.{cursor}
use game_network.Packet.{PacketType}
use game_network.Packet.Header.{header, length-header}
use game_network.Packet.Signed.{signed, length-signed}
use game_network.Packet.Control.{write_disconnect-sent}
use game_network.Packet as Packets
use game_network.Socket.Wire.{load-written}
use game_network.Client.{
  Client, ClientState, is_connected, is_disconnected, is_sending_request, send, send_times,
  send_leave, send_disconnect, disconnect,
}

module _ (h : Host) (c : Crypto) (x : KeyExchange) where
  -- The disconnect packet under a key.
  abbrev pub leave_wire : List ℕ → List ℕ
  leave_wire key = signed h c key (header Packets.disconnect)

  -- The client that has sent a datagram a number of times.
  abbrev pub having_sent : ℕ → Address → List ℕ → Client → Client
  having_sent n a wire s = record s { sent = s.sent ++ replicate n (a, wire) }

  send_times-having_sent :
      (n : ℕ) (a : Address) (wire : List ℕ) (s : Client)
      → length wire < 2 ^ 32
      → send_times h c x n a (cursor wire [] []) s ≡ (having_sent n a wire s, ok tt)
  unfolding send_times send
  send_times-having_sent zero a wire s small =
      ap (λ out. (record s { sent = out }, ok tt)) (sym (append-nil s.sent))
  send_times-having_sent (suc n) a wire s small = rw (load-written wire small) (
      send_times-having_sent n a wire (record s { sent = s.sent ++ (a, wire) ∷ [] }) small
      ∙ ap (λ out. (record s { sent = out }, ok tt))
          (append_assoc s.sent ((a, wire) ∷ []) (replicate n (a, wire))))

  open_end :
      (t : ClientState) → is_connected t ≡ true → is_disconnected t || is_sending_request t ≡ false
  open_end t e = ground arith

  -- A connected client sends ten disconnect packets to its server, and is disconnected.
  pub send_disconnect-leaving :
      (s : Client)
      → c.hmac_size < 2 ^ 31 - 5
      → is_connected s.state ≡ true
      → send_disconnect h c x s
        ≡ (disconnect (having_sent 10 s.server_address (leave_wire s.shared_key) s), ok tt)
  unfolding send_disconnect send_leave
  send_disconnect-leaving s small there =
      rw
        (
          open_end s.state there,
          write_disconnect-sent h c s.shared_key small,
          send_times-having_sent 10 s.server_address (leave_wire s.shared_key) s (
              omega (
                arith,
                length-signed h c s.shared_key (header Packets.disconnect),
                length-header Packets.disconnect,
              )),
        )
        refl
