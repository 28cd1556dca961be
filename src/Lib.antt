-- ===== src/Lib.antt =====
-- Scuba Chat: a chat between at most four nodes over an acoustic channel, in C++.
--
-- A message of the user is cut into fragments, each behind a header of four bytes, and sent by
-- stop-and-wait to the next hop that the routing table names; relays pass it on, and the receiver
-- acknowledges and puts the fragments together. The tables come from the nodes' own broadcasts
-- (echoes), by distance-vector routing. Bytes come and go through the socket of an audio framework.
--
-- Files, with the code that each models:
-- - Prelude: Boolean tests, casts to 8, 16 and 32 bits, steps that may fault, lists over the native
--   numbers, bit masks, and maps as association lists.
-- - Packet: src/utils/packet_header.h and .cpp (Header, build_header, get_separated_header,
--   bytes_vector_to_header_int, add_header_to_payload). Packet.Fields and Packet.RoundTrip hold the
--   lemmas on the single fields and on whole headers.
-- - Fragmentation: src/backend/fragmentation (fragment_message is Fragmenter::fragmentMessage,
--   insert_fragment is Reassembler::insertFragment).
-- - Addressing: src/backend/addressing (DynamicAddressing, get_my_addr, set_my_addr).
-- - Routing: src/backend/routing (VectorRoutingProtocol). State has the fields and the operations on
--   single parts of it, Table the packing of a table into an echo, Echo register_echo and
--   handle_collision, Tick a round of tick, Broadcast the thread broadcast_table
--   and the callers that start it,
--   Print what print_table shows. Echo.Collision is about two nodes with one address. Run puts
--   the events of one node into any order, and System several nodes with the echoes in the air
--   between them.
--   Silence is about a neighbour that is not heard from.
-- - MultihopRelay: src/backend/multihop-relay.
-- - Transport: src/backend/transport; Receiver is StopAndWaitReceiver, Sender StopAndWaitSender,
--   Manager TransportManager. EndToEnd puts the two ends of a message together,
--   ToAll those of a message for all nodes.
-- - Mac: src/backend/mac. MessageQueue: src/backend/MessageQueue. ChannelState:
--   src/backend/channel_state. Network: src/backend/network with src/utils/Message.h and
--   MessageType.h; Client is the socket and what is written there, DataReceiver what is read.
-- - BlockingQueue: src/utils/BlockingQueue.h, with its threads as a step relation.
-- - Windows: src/frontend/Chatroom/privatechatwindow.cpp and chatroomwindow.cpp (PrivateChat and
--   ChatRoom), what the windows keep, show and send. Library names what they use of Qt and of the
--   standard library.
-- - Chatroom: src/frontend/Chatroom/main.cpp, the loop of real_main, and in Sending the function that
--   it gives to the transport layer. Arrival follows a message from its last frame to the queue, and Echoes
--   says that the loop treats echoes as the nodes of Routing.System do. Loop is about a
--   round of the loop, and Routine about many, with rounds of the clock between them.
--
-- How state is modelled: an object is a record, passed from call to call; a packet or a message that
-- the code hands to a callback is an effect; a call of undefined behaviour (a null route, a read
-- beyond a packet) is `none`. Handlers run one at a time, and a detached thread is the job it runs.
-- Narrow integers keep their wrap-around.
--
-- Parameters: `rand` gives the value of each call of rand(), `draw` that of Random::get, whose range
-- is a named hypothesis; the packets that arrive in each wait are a function of the wait, and what a
-- loop reads of the line or of the table a function of its round. The conversions of QString,
-- std::to_string, std::sort and the comparison of strings are fields of two records; that a sort keeps
-- what a list contains, and that numbers are written differently, are named hypotheses. The calls of the
-- operating system that open a socket are the fields of one more.
--
-- Fuel: draw_addr, which draws addresses until one is free, wait_for_route, which waits for a route,
-- broadcast_from and wait_until_free, which wait for a free line, have fuel; of each it is proved that
-- enough fuel gives a result. All other loops are structural.
--
-- One handler runs at a time: in the program the thread that ticks and the main loop share the state
-- without a lock, and between the test of update_broadcast_pending and its setting another thread may
-- come. Routing.Broadcast.Race has the two as steps of their own.
--
-- Not modelled: sleeping, output, the branches for Windows, the start of threads, the layout of the Qt
-- windows and the code that Qt generates.
pub mod Prelude
pub mod Packet
pub mod Fragmentation
pub mod Addressing
pub mod Routing
pub mod MultihopRelay
pub mod Transport
pub mod Windows
pub mod Mac
pub mod MessageQueue
pub mod Network
pub mod ChannelState
pub mod BlockingQueue
pub mod Chatroom
