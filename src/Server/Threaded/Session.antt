-- ===== src/Server/Threaded/Session.antt =====
-- handle_client over a whole session: the frames of one peer, one behind the other on the stream.
use mathlib.Core.List.{append_assoc}
use carrot_rpc.Prelude.{
  ℕ, suc, ◌+◌, ◌-◌, ◌^◌, ◌≤◌, ◌≡◌, refl, ap, sym, ◌∙◌, inr, Bool, true, List, [], ◌∷◌, ◌++◌, Bytes,
  length, subst, arith, append-nil, Every,
}
use carrot_rpc.Packet.{Packet}
use carrot_rpc.Buffer.{IsConsistent}
use carrot_rpc.Io.{IsHarmless, count_serves}
use carrot_rpc.Frame.{frame}
use carrot_rpc.Message.{IsCodec}
use carrot_rpc.Protob.Response
use carrot_rpc.Protob.Response.{Response}
use carrot_rpc.Server.Registry.{Services}
use carrot_rpc.Server.Simple.{Environment}
use carrot_rpc.Server.Simple.Arrival.{Arrives}
use carrot_rpc.Server.Simple.Reply.{CanSend, reply_size, reply_bytes}
use carrot_rpc.Server.Simple.Answer.{reply, answer}
use carrot_rpc.Server.Threaded.{
  Thread, Round, goes_on, breaks, blocked, fault, escaped, serve_request, handle_client,
}
use carrot_rpc.Server.Threaded.Answer.{serve_request-Answers}
use carrot_rpc.Server.Threaded.Given.{Fulfillable, Gives}

-- A request on the stream, and what its method returns.
pub record Exchange (Msg : Type 0) : Type 0 where
  pub header : Packet
  pub meta : Bytes
  pub param : Bytes
  pub extra : Bytes
  pub response : Response
  pub message : Msg

abbrev pub request_size : {Msg : Type 0} → Exchange Msg → ℕ
request_size x = 12 + x.header.rpc_len + x.header.req_len + x.header.resp_len

-- The stream with the requests and, behind them, the rest.
abbrev pub stream : {Msg : Type 0} → List (Exchange Msg) → Bytes → Bytes
stream [] rest = rest
stream (x ∷ xs) rest = frame x.header ((x.meta ++ (x.param ++ x.extra)) ++ stream xs rest)

module _ {Msg : Type 0} (env : Environment Msg) {ready_to_parse : Msg → Bool} {fits : Msg → Type 0}
    (responses : IsCodec env.responses Response.is_initialized Response.Fits)
    (messages : IsCodec env.messages ready_to_parse fits) (all : (k : ℕ) → env.grants k ≡ true)
    (services : Services Msg) where
  -- The header tells the sizes, neither frame is above 2 GB, and the method answers with a reply that can be sent.
  pub record Takes (x : Exchange Msg) : Type 0 where
    pub rpc : x.header.rpc_len ≡ length x.meta
    pub req : x.header.req_len ≡ length x.param
    pub resp : x.header.resp_len ≡ length x.extra
    pub small : request_size x ≤ 2 ^ 31
    pub answered :
        answer env services (env.requests.parse_from_array x.meta) x.param
        ≡ reply x.response x.message
    pub can : CanSend env responses messages all x.response x.message
    pub small_reply : reply_size env responses messages all x.response x.message ≤ 2 ^ 31

  abbrev pub replies : List (Exchange Msg) → Bytes
  replies [] = []
  replies (x ∷ xs) = reply_bytes env responses messages all x.response x.message ++ replies xs

  -- The served calls that the session needs at most.
  abbrev pub cost : List (Exchange Msg) → ℕ
  cost [] = 0
  cost (x ∷ xs) =
      request_size x + reply_size env responses messages all x.response x.message + cost xs

  -- A session that was served, from which the loop goes on with so many rounds.
  pub record Serves (t : Thread) (xs : List (Exchange Msg)) (rest : Bytes) (rounds : ℕ)
      : Type 0 where
    pub after : Thread
    pub goes :
        handle_client env services (length xs + rounds) t ≡ handle_client env services rounds after
    pub closes : after.closes ≡ 0
    pub consistent : IsConsistent after.buffer
    pub input : after.socket.input ≡ rest
    pub output : after.socket.output ≡ t.socket.output ++ replies xs
    pub harmless : IsHarmless after.socket.turns

  -- The hypotheses on the thread before the session.
  pub record Ready (t : Thread) (xs : List (Exchange Msg)) (rest : Bytes) : Type 0 where
    pub closes : t.closes ≡ 0
    pub consistent : IsConsistent t.buffer
    pub input : t.socket.input ≡ stream xs rest
    pub harmless : IsHarmless t.socket.turns
    pub turns : cost xs ≤ count_serves t.socket.turns

  -- A round that served one exchange.
  record Answered (t : Thread) (x : Exchange Msg) (rest : Bytes) : Type 0 where
    pub after : Thread
    pub goes : serve_request env services t ≡ goes_on after
    pub closes : after.closes ≡ 0
    pub consistent : IsConsistent after.buffer
    pub input : after.socket.input ≡ rest
    pub output :
        after.socket.output
        ≡ t.socket.output ++ reply_bytes env responses messages all x.response x.message
    pub harmless : IsHarmless after.socket.turns
    pub turns :
        count_serves t.socket.turns
        ≤ count_serves after.socket.turns
          + (request_size x + reply_size env responses messages all x.response x.message)

  round-Answered :
      (x : Exchange Msg) (xs : List (Exchange Msg)) (t : Thread) (rest : Bytes)
      → Takes x
      → Ready t (x ∷ xs) rest
      → Answered t x (stream xs rest)
  round-Answered x xs t rest k r = go (serve_request env services t) refl (
      subst
        (λ a.
          Gives env responses messages all left (stream xs rest) t.socket.output a
            (serve_request env services t))
        k.answered
        (serve_request-Answers env responses messages all services t r.closes r.consistent x.header
          x.meta x.param x.extra (stream xs rest) arrives k.small
          (subst (Fulfillable env responses messages all left) (sym k.answered)
            (k.can, k.small_reply, omega (arith, r.turns)))))
    where
      left : ℕ
      left = count_serves t.socket.turns - request_size x

      arrives : Arrives t.socket x.header x.meta x.param x.extra (stream xs rest)
      arrives = record {
        rpc = k.rpc;
        req = k.req;
        resp = k.resp;
        small = omega (arith, k.small);
        input = r.input;
        harmless = r.harmless;
        turns = omega (arith, r.turns);
      }

      go :
          (round : Round)
          → serve_request env services t ≡ round
          → Gives env responses messages all left
              (stream xs rest)
              t.socket.output
              (reply x.response x.message)
              round
          → Answered t x (stream xs rest)
      go (goes_on t') e (closes, whole, output, input, harmless, turns) = record {
        after = t';
        goes = e;
        closes = closes;
        consistent = inr whole;
        input = input;
        output = output;
        harmless = harmless;
        turns = omega (arith, turns);
      }
      go (breaks t') e g = absurd g
      go blocked e g = absurd g
      go fault e g = absurd g
      go (escaped what) e g = absurd g

  round_goes :
      (rounds : ℕ) (t after : Thread)
      → serve_request env services t ≡ goes_on after
      → handle_client env services (suc rounds) t ≡ handle_client env services rounds after
  unfolding handle_client
  round_goes rounds t after e = rw (handle_client, e) refl

  -- If the messages keep the contract of the library, the allocator grants every size, the
  -- descriptor is open, the block of the thread has the size it is said to have, the kernel
  -- interrupts at worst and serves as many calls as the requests and the replies have bytes, and the
  -- stream holds frames of at most 2 GB one behind the other, the call of each of which returns a
  -- reply of at most 2 GB that can be sent, then after as many rounds as there are frames the loop
  -- goes on from a thread whose descriptor is open, whose block has the size it is said to have,
  -- that has read exactly these frames and has written the replies, each whole and in the order of
  -- the requests.
  pub handle_client-Serves :
      (xs : List (Exchange Msg)) (t : Thread) (rest : Bytes) (rounds : ℕ)
      → Every Takes xs
      → Ready t xs rest
      → Serves t xs rest rounds
  handle_client-Serves [] t rest rounds every r = record {
    after = t;
    goes = ap (λ n. handle_client env services n t) (omega arith);
    closes = r.closes;
    consistent = r.consistent;
    input = r.input;
    output = sym (append-nil t.socket.output);
    harmless = r.harmless;
  }
  handle_client-Serves (x ∷ xs) t rest rounds (k, every) r =
      let count : length (x ∷ xs) + rounds ≡ suc (length xs + rounds) = omega arith in
      let a = round-Answered x xs t rest k r in
      let s = handle_client-Serves xs a.after rest rounds every (record {
        closes = a.closes;
        consistent = a.consistent;
        input = a.input;
        harmless = a.harmless;
        turns = omega (arith, r.turns, a.turns);
      }) in
      record {
        after = s.after;
        goes =
            ap (λ n. handle_client env services n t) count
            ∙ round_goes (length xs + rounds) t a.after a.goes
            ∙ s.goes;
        closes = s.closes;
        consistent = s.consistent;
        input = s.input;
        output =
            s.output
            ∙ ap (λ o. o ++ replies xs) a.output
            ∙ append_assoc t.socket.output
                (reply_bytes env responses messages all x.response x.message) (replies xs);
        harmless = s.harmless;
      }
