-- ===== src/Exports/Clients.antt =====
-- The exported functions of Client.cpp, and that what they do to a client are steps of it.
use game_network.Base.{ℕ, zero, suc, Option, Bool, false, List, [], ◌∷◌, some, Result, ok}
use game_network.Base.Int.{ℤ, pos, negsuc}
use game_network.Platform.{Host, Crypto, KeyExchange}
use game_network.Address.{Address}
use game_network.Crc.{Statics}
use game_network.Client.{
  Client, ClientState, disconnected, sending_request, sending_challenge_response, connected,
  new_client, destroy_client, connect, respond_challenge, send_disconnect, send_game_data,
  set_active_timeout, get_index, get_state,
}
use game_network.Client.Listen.{Heard, listen}
use game_network.Exports.{at_object, ask_object}

-- `Internal_ClientCreate`
abbrev pub client_create : Statics → ℕ → Option Client
client_create statics entropy = some (new_client statics entropy)

-- The number of an enumerator, as `char`.
abbrev pub state_number : ClientState → ℤ
state_number disconnected = pos 0
state_number sending_request = pos 1
state_number sending_challenge_response = pos 2
state_number connected = pos 3

-- `Internal_ClientSetActiveTimeout`, `Internal_ClientGetIndex` and `Internal_ClientGetState`
abbrev pub client_set_active_timeout : Bool → Option Client → Option Client × Unit {0}
client_set_active_timeout value = at_object tt (λ s. (set_active_timeout value s, tt))

abbrev pub client_get_index : Option Client → ℤ
client_get_index = ask_object (negsuc 0) get_index

abbrev pub client_get_state : Option Client → ℤ
client_get_state = ask_object (negsuc 0) (λ s. state_number (get_state s))

module _ (h : Host) (c : Crypto) (x : KeyExchange) where
  -- `Internal_ClientDestroy`, with the object as its destructor leaves it.
  unfoldable pub client_destroy : Option Client → Option Client × Result (Unit {0})
  unfolding destroy_client
  client_destroy = at_object (ok tt) (destroy_client h c x)

  -- `Internal_ClientConnect`
  unfoldable pub client_connect : Option Client → Option Client × Result (Unit {0})
  unfolding connect
  client_connect = at_object (ok tt) (connect h c x)

  -- `Internal_ClientDisconnect`
  unfoldable pub client_disconnect : Option Client → Option Client × Result (Unit {0})
  unfolding send_disconnect
  client_disconnect = at_object (ok tt) (send_disconnect h c x)

  -- `Internal_ClientListen`
  unfoldable pub client_listen :
      ℕ → ℕ → ℕ → Option (Address × List ℕ) → Option Client → Option Client × Result Heard
  unfolding listen
  client_listen now later p_size datagram =
      at_object (ok (negsuc 0, [])) (listen h c x now later p_size datagram)

  -- `Internal_ClientSendGameData`
  unfoldable pub client_send_game_data :
      Bool → List ℕ → ℕ → Option Client → Option Client × Result Bool
  unfolding send_game_data
  client_send_game_data sent bytes size =
      at_object (ok false) (send_game_data h c x sent bytes size)

  -- The thread that HandlePacket has started runs `RespondChallenge`, where there is one.
  unfoldable pub respond_late : ℕ → Client → Client
  respond_late zero s = s
  respond_late (suc n) s = (respond_challenge h c x (record s { responding = n })).0

  -- What happens to a client: a call through the exports, with what the world answers, or the turn of
  -- a thread that waits to respond to a challenge.
  pub data Request : Type 0 where
    to_connect to_disconnect to_respond : Request
    to_listen : ℕ → ℕ → ℕ → Option (Address × List ℕ) → Request
    to_send : Bool → List ℕ → ℕ → Request
    to_set_timeout : Bool → Request

  unfoldable pub perform : Request → Option Client → Option Client
  unfolding client_connect client_disconnect client_listen client_send_game_data respond_late
  perform to_connect o = (client_connect o).0
  perform to_disconnect o = (client_disconnect o).0
  perform to_respond o = (at_object tt (λ s. (respond_late s.responding s, tt)) o).0
  perform (to_listen now later p_size datagram) o = (client_listen now later p_size datagram o).0
  perform (to_send sent bytes size) o = (client_send_game_data sent bytes size o).0
  perform (to_set_timeout value) o = (client_set_active_timeout value o).0

  unfoldable pub perform_all : List Request → Option Client → Option Client
  unfolding perform
  perform_all [] o = o
  perform_all (r ∷ rs) o = perform_all rs (perform r o)
