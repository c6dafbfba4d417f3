-- ===== src/Call.antt =====
-- A call from src/client/carrot_async_channel.cpp through src/server/carrot_async_server.cpp and back, where
-- the bytes that one side gives to async_write are the bytes that the other side reads.
pub mod Request
pub mod Reply
pub mod Whole
mod Examples
use carrot_rpc.Prelude.{ℕ, Option, none, some, List, [], ◌∷◌, Bytes, take, drop}
use carrot_rpc.Asio.{no_error}
use carrot_rpc.Packet.{sizeof_packet}
use carrot_rpc.Server
use carrot_rpc.Server.Registry.{Services}
use carrot_rpc.Server.Async.{finished, raised, crashed, spins}
use carrot_rpc.Server.Async.Session.{exchange}
use carrot_rpc.Client
use carrot_rpc.Client.Async.{CallTask, Pending, reading_header, reading_payload}
use carrot_rpc.Client.Async.Calls.{Result, returned, threw, faulted, hangs, start_call}
use carrot_rpc.Client.Async.Handlers.{handle_read_header, handle_read_payload}

-- asio takes the handler that reads.
abbrev pub drop_reader : List Pending → List Pending
drop_reader [] = []
drop_reader (reading_header ∷ hs) = hs
drop_reader (reading_payload ∷ hs) = hs
drop_reader (h ∷ hs) = h ∷ drop_reader hs

infixl 5 ◌>>=◌
abbrev ◌>>=◌ : {A B : Type 0} → Option A → (A → Option B) → Option B
none >>= f = none
some a >>= f = f a

abbrev pub first : List Bytes → Option Bytes
first [] = none
first (bytes ∷ _) = some bytes

module _ {Msg : Type 0} where
  abbrev pub without_reader : Client.Async.Connection Msg → Client.Async.Connection Msg
  without_reader c = record c { pending = drop_reader c.pending }

-- What is left on both sides.
abbrev pub Sides : Type 0 → Type 0
Sides Msg = Client.Async.Connection Msg × Server.Async.Connection

abbrev pub if_returned :
    {Msg A : Type 0} → Result Msg → (Client.Async.Connection Msg → Option A) → Option A
if_returned (returned c) k = k c
if_returned (threw c what) k = none
if_returned faulted k = none
if_returned hangs k = none

abbrev pub if_finished :
    {A : Type 0}
    → Server.Async.Ended Server.Async.Connection
    → (Server.Async.Connection → Option A)
    → Option A
if_finished (finished d) k = k d
if_finished (raised d what) k = none
if_finished crashed k = none
if_finished spins k = none

module _ {Msg : Type 0} (client : Client.Async.Environment Msg) where
  -- The reply is read in two pieces.
  abbrev pub receive_reply :
      Bytes → Client.Async.Connection Msg → Option (Client.Async.Connection Msg)
  receive_reply reply c =
      if_returned (handle_read_header client no_error (take sizeof_packet reply) (without_reader c))
        λ c'.
          if_returned
            (handle_read_payload client no_error (drop sizeof_packet reply) (without_reader c'))
            some

module _ {Msg : Type 0} (client : Client.Async.Environment Msg)
    (server : Server.Simple.Environment Msg) (services : Services Msg) where
  -- The frame that the server receives is read in two pieces too.
  abbrev pub call :
      CallTask Msg → Client.Async.Connection Msg → Server.Async.Connection → Option (Sides Msg)
  call t c s = if_returned (start_call client t c) λ c'. do
    request ← first c'.sent
    s' ←
        if_finished
          (exchange server services (take sizeof_packet request) (drop sizeof_packet request) s)
          some
    reply ← first s'.sent
    c'' ← receive_reply client reply c'
    some (c'', s')
