-- ===== src/Lib.antt =====
-- Verification of NetworkPlugin, the networking library of the repository: packets, their checks,
-- the server that players connect to, the client, and the two of them together. Paths are those of
-- the repository.
--
-- The parts, from the bottom up, and the files that model them:
--
-- - Base and its children: names that every file uses, lists measured by native numbers, the type
--   `int` (Base.Int), words in memory (Base.Bytes), bit operations (Base.Bits), and the outcomes of
--   C++ code (Base.Results): a value, an exception, or a fault, which is an access outside of the
--   allocation.
-- - Platform: what the program calls and does not implement, as records of operations with the
--   documented behaviour that is used: byte order and fresh memory (Host), the signature and the
--   sizes of the keys (Crypto), and the key exchange (KeyExchange).
-- - Buffer (NetworkPlugin/src/Packets/Buffer.cpp, include/Network/Packets/Buffer.h): a cursor over
--   bytes. `write_integer` is WriteInteger, and so on. A float is its 32 bits (Buffer.Float).
-- - Checksums (NetworkPlugin/src/ErrorDetection/Checksums.cpp): Adler32, Fletcher32 and
--   Fletcher32_improved.
-- - Crc (NetworkPlugin/include/Network/ErrorDetection/CRC.h): the CRC32 with its static table, and the
--   bitwise routine. ReverseBits is `reverse_bits`; its last shift, undefined
--   for 32 bits and more, is the one of x86.
-- - Packet (NetworkPlugin/src/Packets/Packet.cpp, include/Network/Packets/Packet.h): the types, the
--   check by CRC and the check by HMAC, and what each packet writes and reads (Packet.Arriving:
--   what a socket hands on can be checked). Packets write into a buffer and are read from one.
--   PROTOCOL_ID is a checksum of the program's name.
-- - Address (NetworkPlugin/src/Address.cpp): IPv4 addresses, by which the server finds its clients,
--   and their texts (Address.Text). `inet_pton` is a parameter, TextAddress.
-- - Server (NetworkPlugin/src/Server.cpp, include/Network/Server.h): the tables of challenges and
--   connections (Server), the handlers (Server.Handlers), and Listen (Server.Listen). A method is a
--   function from the server to the server and a result, so that what it changed stays changed when
--   it throws. Listen gets the datagram that arrived as an argument, and what is sent is kept in
--   the order of the calls. Server.Preservation says which changes the handlers are made of;
--   Server.Invariant, Server.Counting and Server.Keyed are kept by each, and Server.Surviving is
--   about what Listen comes to in the lobby. Server.Evicting is about two challenges in one slot.
-- - Socket (NetworkPlugin/src/Socket.cpp, and the class NetworkAPI of
--   NetworkPlugin/src/NetworkPlugin.cpp): the handle, and the calls of WinSock in their order. What
--   WinSock answers is an argument. Listen of both ends receives into 1024 bytes: `receive_into`
--   has what is left of a longer datagram, which is nothing but its first 1024 bytes under the size
--   -1. Theorems on datagrams that are heard have that bound.
-- - Client (NetworkPlugin/src/Client.cpp, include/Network/Client.h): the state machine of a player.
--   Client.Listen is Listen with its handlers; Client.Machine has the diagram of the states and the
--   steps that a client takes, Client.Traces what is said of sequences of steps. The thread that
--   HandlePacket starts for RespondChallenge is counted, and runs as a step of its own between two
--   calls. Client.Memory is about what Listen comes to where the client is not connected.
-- - Handshake (Client.cpp and Server.cpp): a client and a server with a network that delivers the
--   last datagram to its address, or to all where it is broadcast. Handshake.Connects is about the
--   messages up to the connection, Handshake.Stream and Handshake.Losses about game data,
--   Handshake.Session about both, Handshake.Leaving about a client that disconnects, with all of its
--   datagrams delivered, and Handshake.Visit about one that joins and leaves.
-- - Exports (the exported functions at the end of Client.cpp, Server.cpp, Socket.cpp and
--   Address.cpp): a pointer to an object is an Option, `none` for NULL. In Exports.Clients the
--   threads that respond to challenges take their turns between the calls.
-- - Program (TestNetworkPlugin/main.cpp): the two threads and the main thread as steps over the
--   exported functions, in any order (Program.Runs). The server and the client have each a table of
--   the checksum of their own here, where the process has one for both.
-- - Tests: the theorems at concrete inputs.
--
-- Loops over a count recurse on the rounds that are left. The loops of ReverseBits and of the blocks
-- of Fletcher32_improved recurse on an accessibility proof of the number that shrinks, so that no
-- fuel is needed anywhere. Arithmetic of 32 bits has its wrap-around written out.
--
-- The conversion of an integer to a float rounds to the nearest, and searches the 32 bits.
--
-- Not modelled: the messages for the debug callback; the macros and headers of the build; and what
-- a process does behind an exception that leaves a thread. The task that computes a shared key
-- takes the challenge's entry as it is when the task is made, and a thread of the client's does not
-- run inside a call of its. Two threads' calls of one server do not overlap.
pub mod Base
pub mod Platform
pub mod Buffer
pub mod Checksums
pub mod Crc
pub mod Packet
pub mod Address
pub mod Socket
pub mod Server
pub mod Client
pub mod Handshake
pub mod Exports
pub mod Program
pub mod Tests
