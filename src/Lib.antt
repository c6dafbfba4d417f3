-- ===== src/Lib.antt =====
-- Carrot RPC: remote procedure calls over TCP with protobuf messages.
--
-- A call travels as a frame: the header `packet` of src/common/packet.h, three lengths in network
-- order, then the metadata (a Request or a Response of src/protob/), the parameter of the request and
-- the parameter of the response. A channel of src/client/ makes the frame from a method and a
-- message; a server of src/server/ reads it into a buffer that grows, finds the service and the method
-- by the method_identity of the metadata, calls the method and sends a frame back.
--
-- Prelude: lists, tests and bytes over the native numbers.
-- Packet: src/common/packet.h, and the image of the header in the memory of a little-endian host.
-- Os: the descriptors of a process, open or not, and the answers of the system to its calls.
-- Sockets: the functions of src/common/utils.cpp that create sockets, the constructor of src/server/carrot_server.cpp,
--   and the constructor and the destructor of src/client/carrot_blocking_channel.cpp. The list that
--   getaddrinfo gives is a parameter.
-- Buffer: expand_packet of src/common/utils.cpp and expand_connection_packet of
--   src/server/carrot_simple_server.cpp. A block is its size; the allocator is a set of granted sizes.
--   The loop of expand_packet is given 32 rounds, enough to double 1 up to 2^31.
-- Io: read_n and write_n of src/common/utils.cpp. A socket has the bytes that the peer sends, the bytes
--   written to it, errno, and the list of the kernel's answers to read and write; a call that uses the list
--   up is `waiting`, and a claim that a call ends asks for as many served answers as there are bytes.
-- Frame: the three reads and the ntohl's that the servers and the blocking channel begin with.
-- Message: a protobuf message as an interface, `Codec`, with the documented laws `IsCodec`. Where the
--   program passes a uint32_t as the int size of ParseFromArray or SerializeToArray, a size from 2^31 on is
--   negative: what the library does then are parameters of their own, without laws.
-- Protob: the classes Request and Response of src/protob/rpc.pb.h and rpc.pb.cc, member function by member
--   function. WireFormatLite, CodedInputStream and MessageLite are the library's: `Wire` and `Lite` are
--   parameters, with the laws `IsWire` and `IsLite`; Protob/Codec fills `IsCodec` for both messages, and
--   Protob/Sample is a small library that meets the laws. A round of the parser takes a tag off the
--   stream, so that one round more than the stream has bytes, and the constant more that the labels need, is
--   fuel enough.
-- Controller: src/common/carrot_controller.h.
-- Server/Registry: RegisterService and the map of services, and the lookups that route a call. A service
--   is the user's code, a record of functions.
-- Server/Simple: handle_client and respond_to_client of src/server/carrot_simple_server.cpp, from the
--   header to the reply; Server/Simple/Answer compares it with a description of the answer.
-- Server/Simple/Pool: the connections of the same server: handle_listen_sock, destroy_rpc_connection, client_callback
--   and the destructor. A pointer is a number, the address; Runs is the relation of the steps, in which
--   the reactor reports an event on any connection in use. Whether reactor_add_event takes a
--   descriptor is a parameter.
-- Server/Threaded: handle_client and respond_to_client of src/server/carrot_threaded_server.cpp; the number of
--   rounds is how often the loop finds the server not stopped. Server/Threaded/Answer compares a round with the
--   description of the simple server, Server/Threaded/Session runs the loop over several requests;
--   Server/Threaded/Accepting is Run.
-- Server/Async: src/server/carrot_async_server.cpp. The handlers are functions on a connection; Server/Async/Step is
--   the relation of the steps of a server, in which boost.asio calls any pending handler with any
--   error, services are registered and the server is destroyed. Given describes what a payload is
--   answered with, Answer compares handle_read_payload with it, Session runs one connection over many frames, Phase, Payload and Called follow the
--   invariant through the handlers, and Sound puts them together.
-- Client/Blocking: CallMethod of src/client/carrot_blocking_channel.cpp; Client/Blocking/Refused puts its
--   frames before the simple server.
-- Client/Async: RpcClientConnection of src/client/carrot_async_channel.cpp. Its handlers are functions on
--   the state; Client/Async/Step is the relation of its steps, in which boost.asio calls any pending
--   handler with any error, each as often as it was registered. A step that uses memory beyond a block
--   ends the run. Once, Kept, Handled, Replies, Reading and Alert follow the two invariants through
--   the member functions, Sound puts them together; Matching and Ending say what a reply does to the calls.
-- Client/Channel: CallMethod of the same file, with the map from "host:service" to a connection. Runs is
--   the relation of its steps, and Sharing says which connection a call goes over.
-- Asio: the errors that boost.asio reports.
-- Call: a call of Client/Async over a connection of Server/Async and back; the only contact of the two are the bytes.
--
-- Machine integers keep their wrap-around: the uint32_t lengths and sums are taken modulo 2^32 where the
-- code stores them in a uint32_t. A read or write beyond a block or beyond the received bytes is a result of
-- its own, `fault` or `faulted`.
--
-- Not modelled: what getaddrinfo, the reactor, boost.asio and protobuf do inside; Run of the simple server, which
-- hands over to the reactor; the interleaving of the threads of the threaded server, which share nothing
-- that changes but the stop flag; closures that call the asynchronous channel again; the order in which the
-- system gives a closed number to another thread; the accessors of the messages that hand out pointers, and
-- reflection; the example programs.
pub mod Asio
pub mod Buffer
pub mod Call
pub mod Client
pub mod Controller
pub mod Frame
pub mod Io
pub mod Message
pub mod Os
pub mod Packet
pub mod Prelude
pub mod Protob
pub mod Server
pub mod Sockets
