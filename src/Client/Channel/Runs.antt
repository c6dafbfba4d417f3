-- ===== src/Client/Channel/Runs.antt =====
-- The runs of a channel: calls of the user and handlers of its connections, in any order.
use carrot_rpc.Prelude.{
  ◌≡◌, refl, subst, inl, inr, Option, none, some, List, [], ◌∷◌, ◌++◌, Bytes, bytes_eq, Every,
  Every-middle, Bool-cases,
}
use carrot_rpc.Controller.{Controller}
use carrot_rpc.Client.Async.{Pending, Connection, Environment, new_connection}
use carrot_rpc.Client.Async.Calls.{Error, Result, returned, threw, faulted, hangs}
use carrot_rpc.Client.Async.Handlers.{issue}
use carrot_rpc.Client.Async.Step
use carrot_rpc.Client.Async.Step.{call_back, Leaves, issues, calls_back, fresh, next}
use carrot_rpc.Client.Channel.{key_of, Conns, find_conn, put_conn, leaves, call_method}

module _ {Msg : Type 0} (env : Environment Msg) where
  pub data ChannelStep (s t : Conns Msg) : Type 0 where
    calls :
        (method : Bytes) (ctl : Controller) (request : Msg)
        → call_method env method ctl request s ≡ some t
        → ChannelStep s t
    handles :
        (before : Conns Msg) (key : Bytes) (c d : Connection Msg) (after : Conns Msg)
        (earlier later : List Pending) (h : Pending) (e : Error) (bytes : Bytes)
        → s ≡ before ++ ((key, c) ∷ after)
        → c.pending ≡ earlier ++ (h ∷ later)
        → Leaves (call_back env h e bytes (record c { pending = earlier ++ later })) d
        → before ++ ((key, d) ∷ after) ≡ t
        → ChannelStep s t

  pub data ChannelReach : Conns Msg → Type 0 where
    no_connections : ChannelReach []
    goes_on : {s t : Conns Msg} → ChannelReach s → ChannelStep s t → ChannelReach t

  -- A connection that is in a run of its own.
  abbrev Runs : Bytes × Connection Msg → Type 0
  Runs (key, c) = Step.Reach env c

  pub find_conn-Runs :
      (key : Bytes) (conns : Conns Msg) (c : Connection Msg)
      → Every Runs conns
      → find_conn key conns ≡ some c
      → Step.Reach env c
  unfolding find_conn
  find_conn-Runs key [] c r e = cc
  find_conn-Runs key ((k, d) ∷ conns) c (p, r) e = elim (Bool-cases (bytes_eq k key)) [
    | inl y ↦ let same : some d ≡ some c = rw y at e in subst (Step.Reach env) (cc same) p
    | inr z ↦ find_conn-Runs key conns c r (rw z at e)
  ]

  put_conn-Runs :
      (key : Bytes) (d : Connection Msg) (conns : Conns Msg)
      → Every Runs conns
      → Step.Reach env d
      → Every Runs (put_conn key d conns)
  unfolding put_conn
  put_conn-Runs key d [] r p = (p, tt)
  put_conn-Runs key d ((k, c) ∷ conns) (q, r) p = elim (Bool-cases (bytes_eq k key)) [
    | inl y ↦ rw y (p, r)
    | inr z ↦ rw z (q, put_conn-Runs key d conns r p)
  ]

  leaves-Runs :
      (key : Bytes) (r : Result Msg) (conns t : Conns Msg)
      → Every Runs conns
      → ((d : Connection Msg) → Leaves r d → Step.Reach env d)
      → leaves key r conns ≡ some t
      → Every Runs t
  leaves-Runs key (returned d) conns t all reach e =
      subst (Every Runs) (cc e) (put_conn-Runs key d conns all (reach d refl))
  leaves-Runs key (threw d what) conns t all reach e =
      subst (Every Runs) (cc e) (put_conn-Runs key d conns all (reach d refl))
  leaves-Runs key faulted conns t all reach e = cc
  leaves-Runs key hangs conns t all reach e = cc

  call_method-Runs :
      (method : Bytes) (ctl : Controller) (request : Msg) (conns t : Conns Msg)
      → Every Runs conns
      → call_method env method ctl request conns ≡ some t
      → Every Runs t
  unfolding call_method
  call_method-Runs method ctl request conns t all e = go (find_conn key conns) refl e
    where
      key : Bytes
      key = key_of ctl.host ctl.service

      go :
          (o : Option (Connection Msg))
          → find_conn key conns ≡ o
          → elim o [
            | none ↦ leaves key (issue env method ctl request new_connection) conns
            | some c ↦ leaves key (issue env method ctl request c) conns
          ]
            ≡ some t
          → Every Runs t
      go none at e =
          leaves-Runs key (issue env method ctl request new_connection) conns t all
            (λ d l. next {c = new_connection} fresh (issues method ctl request l)) e
      go (some c) at e =
          leaves-Runs key (issue env method ctl request c) conns t all
            (λ d l. next {c = c} (find_conn-Runs key conns c all at) (issues method ctl request l))
            e

  Step-Runs : (s t : Conns Msg) → ChannelStep s t → Every Runs s → Every Runs t
  Step-Runs s t (calls method ctl request e) all = call_method-Runs method ctl request s t all e
  Step-Runs s t (handles before key c d after earlier later h e bytes at p l same) all =
      let (run, put) = Every-middle Runs before (key, c) after (subst (Every Runs) at all) in
      subst (Every Runs) same
        (put (key, d) (next {c = c} run (calls_back earlier later h e bytes p l)))

  pub Reach-Runs : (s : Conns Msg) → ChannelReach s → Every Runs s
  Reach-Runs s no_connections = tt
  Reach-Runs t (goes_on {s} r step) = Step-Runs s t step (Reach-Runs s r)
