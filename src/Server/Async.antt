-- ===== src/Server/Async.antt =====
-- RpcServerConnection and CarrotAsyncServer of src/server/carrot_async_server.h and
-- carrot_async_server.cpp: the state, and the member functions that every handler ends in. A connection is
-- kept alive by the server's map and by the handler that asio owes it; it stands once in the list of
-- the server. The bytes behind the header are kept apart from the block that holds them.
pub mod Handlers
pub mod Given
pub mod Answer
pub mod Session
pub mod Step
pub mod Phase
pub mod Payload
pub mod Called
pub mod Sound
mod Examples
use carrot_rpc.Prelude.{
  ℕ, ◌+◌, Bool, true, false, Option, none, some, List, [], ◌∷◌, ◌++◌, Bytes, text, leb, take,
  if◌then◌else◌,
}
use carrot_rpc.Packet.{Packet, sizeof_packet, u32}
use carrot_rpc.Buffer.{Buffer, empty_buffer, ready, failed, looping, expand_packet}
use carrot_rpc.Frame.{frame}
use carrot_rpc.Protob.Response.{Response}
use carrot_rpc.Server.Registry.{Services}
use carrot_rpc.Server.Simple.{Environment}

-- A handler that was handed to asio.
pub data Pending : Type 0 where
  accepting reading_header reading_payload writing_response : Pending

-- `has_server` is `server_ != NULL`, `registered` that the connection is in `server_->conns()`, and `opened`
-- socket_.is_open(); `header` is the header in front of the payload that is read into `p_`; `sent` are
-- what was given to async_write, the last first.
pub record Connection : Type 0 where
  pub has_server : Bool
  pub registered : Bool
  pub opened : Bool
  pub buffer : Buffer
  pub header : Packet
  pub n : ℕ
  pub pending : List Pending
  pub sent : List Bytes

-- `alive` is false once the destructor of the server has run.
pub record AsyncServer (Msg : Type 0) : Type 0 where
  pub alive : Bool
  pub services : Services Msg
  pub connections : List Connection

-- How a member function ends: it returns, an exception leaves it, memory beyond a block, behind a NULL
-- pointer or of a dead object is used, or the loop of expand_packet does not end.
pub data Ended (S : Type 0) : Type 0 where
  finished : S → Ended S
  raised : S → Bytes → Ended S
  crashed : Ended S
  spins : Ended S

abbrev pub and_then : {S T : Type 0} → Ended S → (S → T) → (S → Ended T) → Ended T
and_then (finished s) on_raise k = k s
and_then (raised s what) on_raise k = raised (on_raise s) what
and_then crashed on_raise k = crashed
and_then spins on_raise k = spins

-- The constructor of RpcServerConnection, and the insertion into the map behind it.
abbrev pub new_connection : Connection
new_connection = record {
  has_server = true;
  registered = true;
  opened = false;
  buffer = empty_buffer;
  header = record { rpc_len = 0; req_len = 0; resp_len = 0 };
  n = 0;
  pending = [];
  sent = [];
}

-- RpcServerConnection::destroy
unfoldable pub destroy : Connection → Connection
destroy c = record c { registered = if c.has_server then false else c.registered; opened = false }

abbrev pub bad_alloc : Bytes
bad_alloc = text "std::bad_alloc"

module _ {Msg : Type 0} (env : Environment Msg) where
  -- RpcServerConnection::serve
  unfoldable pub serve : Connection → Ended Connection
  serve c = elim (expand_packet env.grants 32 c.buffer sizeof_packet) [
    | looping ↦ spins
    | failed b ↦ raised (record c { buffer = b }) bad_alloc
    | ready b ↦ finished (record c { buffer = b; pending = reading_header ∷ c.pending })
  ]

  -- A message that is serialized or parsed; a failure destroys the connection and is thrown.
  abbrev pub or_raise :
      {A : Type 0} → Option A → Connection → Bytes → (A → Ended Connection) → Ended Connection
  or_raise none c what k = raised (destroy c) what
  or_raise (some a) c what k = k a

  -- What follows the growth of the packet in respond_to_client.
  unfoldable pub write_response : Connection → Response → Msg → Ended Connection
  write_response c rpc_resp resp =
      let rpc_len = env.responses.byte_size rpc_resp in
      let resp_len = env.messages.byte_size resp in
      or_raise (env.responses.serialize_to_array rpc_resp rpc_len) c
        (text "failed to serialize response(metadata)")
        λ meta.
          if leb (sizeof_packet + rpc_len) c.buffer.size
          then (or_raise (env.messages.serialize_to_array resp resp_len) c
              (text "failed to serialize response")
              λ param.
                if leb (sizeof_packet + rpc_len + resp_len) c.buffer.size
                then finished (record c {
                  pending = writing_response ∷ c.pending;
                  sent =
                      take (sizeof_packet + rpc_len + resp_len) (
                        frame
                          (record { rpc_len = u32 rpc_len; req_len = 0; resp_len = u32 resp_len })
                          (meta ++ param))
                      ∷ c.sent;
                })
                else crashed)
          else crashed

  -- RpcServerConnection::respond_to_client, which grows the packet to n_ and not to the size of the reply;
  -- the log statement calls DebugString through `resp`, NULL or not.
  unfoldable pub respond_to_client : Connection → Option Msg → Response → Ended Connection
  respond_to_client c none rpc_resp = crashed
  respond_to_client c (some resp) rpc_resp = elim (expand_packet env.grants 32 c.buffer c.n) [
    | looping ↦ spins
    | failed b ↦ raised (record c { buffer = b }) bad_alloc
    | ready b ↦ write_response (record c { buffer = b }) rpc_resp resp
  ]
