-- ===== src/Client/Channel.antt =====
-- CarrotAsyncChannel of src/client/carrot_async_channel.h and carrot_async_channel.cpp: the map from
-- "host:service" to the connection. std::map is an association list. The erase in RpcClientConnection::destroy is of a
-- copy of the map, so that no connection leaves it.
pub mod Keys
pub mod Runs
pub mod Sharing
mod Examples
use carrot_rpc.Prelude.{
  Bool, true, false, Option, none, some, List, [], ◌∷◌, ◌++◌, Bytes, bytes_eq, ◌==◌, if◌then◌else◌,
}
use carrot_rpc.Controller.{Controller}
use carrot_rpc.Client.Async.{Connection, Environment, new_connection}
use carrot_rpc.Client.Async.Calls.{Result, returned, threw, faulted, hangs}
use carrot_rpc.Client.Async.Handlers.{issue}

-- ctl->host() + ":" + ctl->service()
unfoldable pub key_of : Bytes → Bytes → Bytes
key_of host service = host ++ (b':' ∷ service)

abbrev pub Conns : Type 0 → Type 0
Conns Msg = List (Bytes × Connection Msg)

module _ {Msg : Type 0} where
  unfoldable pub find_conn : Bytes → Conns Msg → Option (Connection Msg)
  find_conn key [] = none
  find_conn key ((k, c) ∷ conns) = if bytes_eq k key then some c else find_conn key conns

  -- The connection of this key, changed or new.
  unfoldable pub put_conn : Bytes → Connection Msg → Conns Msg → Conns Msg
  put_conn key d [] = (key, d) ∷ []
  put_conn key d ((k, c) ∷ conns) =
      let rest = put_conn key d conns in if bytes_eq k key then (k, d) ∷ conns else (k, c) ∷ rest

  -- What a call of issue leaves in the channel; an exception of issue leaves CallMethod too.
  abbrev pub leaves : Bytes → Result Msg → Conns Msg → Option (Conns Msg)
  leaves key (returned c) conns = some (put_conn key c conns)
  leaves key (threw c what) conns = some (put_conn key c conns)
  leaves key faulted conns = none
  leaves key hangs conns = none

-- CarrotAsyncChannel::CallMethod
unfoldable pub call_method :
    {Msg : Type 0} → Environment Msg → Bytes → Controller → Msg → Conns Msg → Option (Conns Msg)
call_method env method ctl request conns =
    let key = key_of ctl.host ctl.service in
    elim (find_conn key conns) [
      | none ↦ leaves key (issue env method ctl request new_connection) conns
      | some c ↦ leaves key (issue env method ctl request c) conns
    ]
