-- ===== src/Client/Async.antt =====
-- RpcClientConnection of src/client/carrot_async_channel.h and carrot_async_channel.cpp: the state of a
-- connection and of its call tasks. The handlers that boost.asio owes the connection are the list `pending`;
-- asio calls each of them once, with an error if the operation failed or was cancelled. A task is shared
-- by the handlers and the map: it stands once in `tasks`, and all else refers to it by its id. A map is a list of
-- its keys. The closure of the user runs within `run_done`; what it does to the channel is not modelled.
pub mod Calls
pub mod Handlers
pub mod Once
pub mod Kept
pub mod Handled
pub mod Replies
pub mod Reading
pub mod Step
pub mod Alert
pub mod Sound
pub mod Matching
pub mod Ending
mod Examples
use carrot_rpc.Prelude.{
  ℕ, suc, ◌+◌, ◌%◌, ◌^◌, Bool, true, false, ◌||◌, Option, none, some, List, [], ◌∷◌, ◌++◌, Bytes,
  text, ◌==◌, if◌then◌else◌,
}
use carrot_rpc.Packet.{Packet, sizeof_packet, u32}
use carrot_rpc.Buffer.{Buffer, empty_buffer, Expanded, ready, failed, looping, expand_packet}
use carrot_rpc.Frame.{frame}
use carrot_rpc.Message.{Codec}
use carrot_rpc.Protob.Request.{Request, new_request, set_id, set_method_identity}
use carrot_rpc.Protob.Response.{Response}
use carrot_rpc.Controller.{Controller, set_failed}

-- The states STATE_CONNECT_TO_SERVER, STATE_WRITE_TO_SERVER, STATE_READ_DATA and STATE_DONE; the others are
-- never assigned.
pub data TaskState : Type 0 where
  connect_to_server write_to_server read_data done : TaskState

-- `method` is the identity of the method, and `runs` counts the calls of done->Run().
pub record CallTask (Msg : Type 0) : Type 0 where
  pub id : ℕ
  pub method : Bytes
  pub controller : Controller
  pub request : Msg
  pub response : Option Msg
  pub called : Bool
  pub runs : ℕ
  pub state : TaskState
  pub buffer : Buffer

-- A handler that was handed to asio.
pub data Pending : Type 0 where
  resolving connecting writing timing : ℕ → Pending
  reading_header reading_payload : Pending

-- `opened` is socket_.is_open(), and `header` the header in front of the payload that is read into `p_`;
-- `sent` are the frames given to async_write, the last first.
pub record Connection (Msg : Type 0) : Type 0 where
  pub id : ℕ
  pub opened : Bool
  pub is_connecting : Bool
  pub outgoing_tasks : List ℕ
  pub tasks : List (CallTask Msg)
  pub pending : List Pending
  pub buffer : Buffer
  pub header : Packet
  pub n : ℕ
  pub sent : List Bytes

-- What is called of the library, of the allocator and of the user: `run` gives the what() of the exception
-- with which the closure of a call ends, if it throws one.
pub record Environment (Msg : Type 0) : Type 0 where
  pub requests : Codec Request
  pub responses : Codec Response
  pub messages : Codec Msg
  pub grants : ℕ → Bool
  pub run : ℕ → Option Bytes

abbrev pub new_connection : {Msg : Type 0} → Connection Msg
new_connection = record {
  id = 0;
  opened = false;
  is_connecting = false;
  outgoing_tasks = [];
  tasks = [];
  pending = [];
  buffer = empty_buffer;
  header = record { rpc_len = 0; req_len = 0; resp_len = 0 };
  n = 0;
  sent = [];
}

abbrev pub elem : ℕ → List ℕ → Bool
elem k [] = false
elem k (i ∷ is) = i == k || elem k is

abbrev pub erase : ℕ → List ℕ → List ℕ
erase k [] = []
erase k (i ∷ is) = let rest = erase k is in if i == k then rest else i ∷ rest

abbrev pub insert : ℕ → List ℕ → List ℕ
insert k is = if elem k is then is else k ∷ is

module _ {Msg : Type 0} where
  abbrev pub each : (CallTask Msg → CallTask Msg) → List (CallTask Msg) → List (CallTask Msg)
  each f [] = []
  each f (t ∷ ts) = f t ∷ each f ts

  -- A change of the task with this id.
  abbrev pub at_id : ℕ → (CallTask Msg → CallTask Msg) → CallTask Msg → CallTask Msg
  at_id k f t = if t.id == k then f t else t

  abbrev pub on_task : ℕ → (CallTask Msg → CallTask Msg) → Connection Msg → Connection Msg
  on_task k f c = record c { tasks = each (at_id k f) c.tasks }

  abbrev pub find_task : ℕ → List (CallTask Msg) → Option (CallTask Msg)
  find_task k [] = none
  find_task k (t ∷ ts) = if t.id == k then some t else find_task k ts

module _ {Msg : Type 0} (env : Environment Msg) where
  -- `try { done->Run(); } catch ... called = true`
  unfoldable pub run_done : CallTask Msg → CallTask Msg
  run_done t = record t {
    runs = suc t.runs;
    called = true;
    controller = elim (env.run t.id) [
      | none ↦ t.controller
      | some what ↦ set_failed t.controller (text "rpc failed: " ++ what)
    ];
  }

  -- The block `if (!task->called)` with its SetFailed.
  unfoldable pub fail_task : (Controller → Controller) → CallTask Msg → CallTask Msg
  fail_task fails t =
      if t.called then t else run_done (record t { controller = fails t.controller })

  -- RpcClientConnection::finish_task
  unfoldable pub finish_task : ℕ → Connection Msg → Connection Msg
  finish_task k c = on_task k (fail_task λ controller. controller) c

  -- RpcClientConnection::destroy: the socket is closed and every outgoing task is over. The erase from
  -- `chann_->conns()` is of a copy.
  unfoldable pub destroy : Bytes → Connection Msg → Connection Msg
  destroy reason c =
      let is_over = fail_task λ controller. set_failed controller (text "rpc failed: " ++ reason) in
      record c {
        opened = false;
        outgoing_tasks = [];
        tasks = each (λ t. if elem t.id c.outgoing_tasks then is_over t else t) c.tasks;
      }
