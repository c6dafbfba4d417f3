-- ===== src/Client/Async/Reading.antt =====
-- While calls are outgoing, someone reads the replies.
use carrot_rpc.Message.{serialize_sized}
use carrot_rpc.Prelude.{
  ℕ, ◌+◌, ◌≡◌, ◌⊎◌, inl, inr, refl, ◌∙◌, Bool, true, false, ◌||◌, List, [], ◌∷◌, Bytes, text, ◌==◌,
  leb, if◌then◌else◌, Bool-cases, Option-cases,
}
use carrot_rpc.Packet.{u32, sizeof_packet}
use carrot_rpc.Buffer.{Expanded, ready, failed, looping, expand_packet}
use carrot_rpc.Controller.{ec_oom, timeout_never}
use carrot_rpc.Client.Async.{
  CallTask, Pending, connecting, reading_header, reading_payload, Connection, Environment, on_task,
  finish_task, destroy,
}
use carrot_rpc.Client.Async.Calls.{
  Result, returned, threw, faulted, hangs, and_then, with_timer, set_buffer, set_error, start_call,
  start_read, write_packet, request_of, rpc_len_of, req_len_of,
}
use carrot_rpc.Client.Async.Once.{After}

-- The handler is a step of the chain that reads replies.
abbrev pub is_reader : Pending → Bool
is_reader (connecting k) = true
is_reader reading_header = true
is_reader reading_payload = true
is_reader _ = false

abbrev pub has_reader : List Pending → Bool
has_reader [] = false
has_reader (h ∷ hs) = is_reader h || has_reader hs

-- A connection with an open socket or an outgoing call is read from.
abbrev pub IsRead : {Msg : Type 0} → Connection Msg → Type 0
IsRead c = (c.opened ≡ false) × (c.outgoing_tasks ≡ []) ⊎ (has_reader c.pending ≡ true)

-- What holds of the connection that an exception leaves behind.
abbrev pub Throws : {Msg : Type 0} → (Connection Msg → Type 0) → Result Msg → Type 0
Throws P (threw c what) = P c
Throws P _ = Unit {0}

pub and_then-Last :
    {Msg : Type 0} (P : Connection Msg → Type 0) (r : Result Msg) (k : Connection Msg → Result Msg)
    → Throws P r
    → ((c : Connection Msg) → After P (k c))
    → After P (and_then r k)
and_then-Last P (returned c) k t h = h c
and_then-Last P (threw c what) k t h = t
and_then-Last P faulted k t h = tt
and_then-Last P hangs k t h = tt

module _ {Msg : Type 0} (env : Environment Msg) where
  pub destroy-IsRead : (reason : Bytes) (c : Connection Msg) → IsRead (destroy env reason c)
  unfolding destroy
  destroy-IsRead reason c = inl (refl, refl)

  pub start_read-IsRead : (c : Connection Msg) → After IsRead (start_read env c)
  unfolding start_read
  start_read-IsRead c = go (expand_packet env.grants 32 c.buffer sizeof_packet)
    where
      go :
          (e : Expanded)
          → After IsRead (elim e [
            | looping ↦ hangs
            | failed b ↦
                threw
                  (destroy env (text "Cannot allocate memory") (record c { buffer = b }))
                  (text "std::bad_alloc")
            | ready b ↦ returned (record c { buffer = b; pending = reading_header ∷ c.pending })
          ])
      go looping = tt
      go (failed b) = destroy-IsRead _ (record c { buffer = b })
      go (ready b) = inr refl

  -- The end of start_call keeps the handlers that were there, and no exception leaves it.
  pub Goes : Connection Msg → Result Msg → Type 0
  Goes c (returned d) = has_reader c.pending ≡ true → has_reader d.pending ≡ true
  Goes c (threw d what) = ⊥
  Goes c faulted = Unit {0}
  Goes c hangs = Unit {0}

  pub with_timer-reader :
      (k : ℕ) (t : CallTask Msg) (hs : List Pending)
      → has_reader (with_timer k t hs) ≡ has_reader hs
  with_timer-reader k t hs = elim (Bool-cases (t.controller.timeout == timeout_never)) [
    | inl y ↦ rw y
    | inr z ↦ rw z
  ]

  write_packet-Goes : (t : CallTask Msg) (c : Connection Msg) → Goes c (write_packet env t c)
  unfolding write_packet Goes finish_task
  write_packet-Goes t c =
      elim (Option-cases (
        serialize_sized env.requests (request_of env t)
          (u32 (rpc_len_of env t + req_len_of env t)))) [
            | inl e ↦ rw (e, write_packet) (λ h. h)
            | inr (meta, e) ↦
                elim (Option-cases (serialize_sized env.messages t.request (req_len_of env t))) [
                  | inl e' ↦ rw (e, e', write_packet) (λ h. h)
                  | inr (param, e') ↦
                      rw (e, e', write_packet) (λ h. with_timer-reader t.id t c.pending ∙ h)
                ]
          ]

  pub start_call-Goes : (t : CallTask Msg) (c : Connection Msg) → Goes c (start_call env t c)
  unfolding start_call Goes finish_task
  start_call-Goes t c = go (expand_packet env.grants 32 t.buffer (u32 n))
    where
      n : ℕ
      n = sizeof_packet + rpc_len_of env t + req_len_of env t

      go :
          (e : Expanded)
          → Goes c (elim e [
            | looping ↦ hangs
            | failed b ↦ returned (
                finish_task env t.id (
                  on_task t.id
                    (set_error (text "failed to allocate memory for rpc packet") ec_oom)
                    (on_task t.id (set_buffer b) c)))
            | ready b ↦
                if leb n b.size then write_packet env t (on_task t.id (set_buffer b) c) else faulted
          ])
      go looping = tt
      go (failed b) = λ h. h
      go (ready b) = elim (Bool-cases (leb n b.size)) [
        | inl y ↦ rw y (write_packet-Goes t (on_task t.id (set_buffer b) c))
        | inr z ↦ rw z tt
      ]

  pub Goes-After :
      (c : Connection Msg) (r : Result Msg)
      → has_reader c.pending ≡ true
      → Goes c r
      → After IsRead r
  unfolding Goes
  Goes-After c (returned d) h g = inr (g h)
  Goes-After c (threw d what) h g = absurd g
  Goes-After c faulted h g = tt
  Goes-After c hangs h g = tt

  pub Goes-Throws :
      (P : Connection Msg → Type 0) (c : Connection Msg) (r : Result Msg) → Goes c r → Throws P r
  unfolding Goes
  Goes-Throws P c (returned d) g = tt
  Goes-Throws P c (threw d what) g = absurd g
  Goes-Throws P c faulted g = tt
  Goes-Throws P c hangs g = tt
