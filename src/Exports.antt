-- ===== src/Exports.antt =====
-- The functions that are exported to C: of Client.cpp, Server.cpp, Socket.cpp and Address.cpp. Each
-- gets a pointer to an object, `none` for NULL, and answers NULL by a value of its own. The messages
-- of `g_debugCallback` are left out.
pub mod Clients
pub mod Joining
pub mod Servers
pub mod Lobby
pub mod Sockets
pub mod Addresses
use game_network.Base.{Option, none, some}

-- `if (p_obj == NULL) return failure; return p_obj->call();`
abbrev pub at_object : {S A : Type 0} → A → (S → S × A) → Option S → Option S × A
at_object failure call none = (none, failure)
at_object failure call (some s) = (some (call s).0, (call s).1)

-- The same, for what leaves the object as it is.
abbrev pub ask_object : {S A : Type 0} → A → (S → A) → Option S → A
ask_object failure ask none = failure
ask_object failure ask (some s) = ask s
