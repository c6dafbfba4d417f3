-- ===== src/Server/Threaded/Replying.antt =====
-- The replies of the threaded server and the calls of close on the descriptor.
use carrot_rpc.Prelude.{
  ℕ, ◌+◌, ◌≤◌, ◌<◌, Option, none, some, leb, arith, Bool-cases, inl, inr, if◌then◌else◌,
}
use carrot_rpc.Packet.{u32, sizeof_packet}
use carrot_rpc.Buffer.{Expanded, ready, failed, looping, expand_packet}
use carrot_rpc.Io.{Socket, Outcome, completed, broken, waiting}
use carrot_rpc.Protob.Response.{Response}
use carrot_rpc.Controller.{new_controller}
use carrot_rpc.Server.Registry.{CarrotService, Called, returned, threw}
use carrot_rpc.Server.Simple.{Environment, optional_bytes, verdict}
use carrot_rpc.Server.Threaded.{
  Thread, Round, goes_on, breaks, blocked, fault, escaped, destroy_connection, or_breaks,
  with_socket, or_drops, sends, or_drops_packet, send_reply, respond_to_client, call_service,
}

-- A round that goes on has not undone a close, and a round that breaks has closed.
abbrev pub Closes : ℕ → Round → Type 0
Closes n (goes_on t) = n ≤ t.closes
Closes n (breaks t) = n < t.closes
Closes n blocked = Unit {0}
Closes n fault = Unit {0}
Closes n (escaped what) = Unit {0}

pub or_breaks-Closes :
    {A : Type 0} (r : Outcome A) (t : Thread) (k : A → Thread → Round)
    → ((a : A) (s : Socket) → Closes t.closes (k a (with_socket s t)))
    → Closes t.closes (or_breaks r t k)
unfolding destroy_connection
or_breaks-Closes (completed a s) t k h = h a s
or_breaks-Closes (broken s) t k h = omega arith
or_breaks-Closes waiting t k h = tt

module _ {Msg : Type 0} (env : Environment Msg) where
  pub or_drops-Closes :
      {A : Type 0} (o : Option A) (t : Thread) (k : A → Round)
      → ((a : A) → Closes t.closes (k a))
      → Closes t.closes (or_drops env o t k)
  unfolding destroy_connection
  or_drops-Closes none t k h = omega arith
  or_drops-Closes (some a) t k h = h a

  sends-Closes : (r : Outcome (Unit {0})) (t : Thread) → Closes t.closes (sends env r t)
  unfolding destroy_connection
  sends-Closes (completed u s) t = omega arith
  sends-Closes (broken s) t = omega arith
  sends-Closes waiting t = tt

  send_reply-Closes :
      (t : Thread) (resp : Option Msg) (r : Response) (rpc_len resp_len : ℕ)
      → Closes t.closes (send_reply env t resp r rpc_len resp_len)
  unfolding send_reply
  send_reply-Closes t resp r rpc_len resp_len =
      or_drops-Closes (env.responses.serialize_to_array r rpc_len) t _
        λ meta. or_drops-Closes (optional_bytes env resp resp_len) t _ λ param. sends-Closes _ t

  pub respond_to_client-Closes :
      (t : Thread) (resp : Option Msg) (r : Response)
      → Closes t.closes (respond_to_client env t resp r)
  unfolding respond_to_client destroy_connection
  respond_to_client-Closes t none r = tt
  respond_to_client-Closes t (some m) r = go (expand_packet env.grants 32 t.buffer (u32 n))
    where
      rpc_len : ℕ
      rpc_len = u32 (env.responses.byte_size r)

      resp_len : ℕ
      resp_len = u32 (env.messages.byte_size m)

      n : ℕ
      n = sizeof_packet + rpc_len + resp_len

      go :
          (e : Expanded)
          → Closes t.closes (
              or_drops_packet env e t λ t'.
                if leb n t'.buffer.size
                then send_reply env t' (some m) r rpc_len resp_len
                else fault)
      go looping = tt
      go (failed b) = omega arith
      go (ready b) = elim (Bool-cases (leb n b.size)) [
        | inl y ↦ rw y (send_reply-Closes (record t { buffer = b }) (some m) r rpc_len resp_len)
        | inr z ↦ rw z tt
      ]

  pub call_service-Closes :
      (t : Thread) (cs : CarrotService Msg) (md : ℕ) (request : Msg)
      → Closes t.closes (call_service env t cs md request)
  unfolding call_service
  call_service-Closes t cs md request =
      go (cs.s.call_method md (new_controller env.garbage env.garbage) request cs.c)
    where
      go :
          (called : Called Msg)
          → Closes t.closes (elim called [
            | returned response controller ↦
                respond_to_client env t (some response) (verdict controller)
            | threw what response controller ↦ escaped what
          ])
      go (returned m c) = respond_to_client-Closes t (some m) (verdict c)
      go (threw what m c) = tt
