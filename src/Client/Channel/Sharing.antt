-- ===== src/Client/Channel/Sharing.antt =====
-- A call goes over the connection of its host and service, the stored one where there is one.
use carrot_rpc.Prelude.{
  ◌≡◌, refl, ap, ap₂, sym, ◌∙◌, inl, inr, Bool, true, ◌&&◌, Option, none, some, Bytes, bytes_eq,
  bytes_eq→eq, bytes_eq_refl, Lacks, Bool-cases, arith, if◌then◌else◌,
}
use carrot_rpc.Controller.{Controller}
use carrot_rpc.Client.Async.{Connection, Environment, new_connection}
use carrot_rpc.Client.Async.Calls.{Result, returned, threw, faulted, hangs}
use carrot_rpc.Client.Async.Handlers.{issue}
use carrot_rpc.Client.Async.Once.{nobody, AreKept}
use carrot_rpc.Client.Async.Reading.{IsRead}
use carrot_rpc.Client.Async.Step
use carrot_rpc.Client.Async.Step.{Leaves, issues, fresh, next}
use carrot_rpc.Client.Async.Sound.{Reach-AreKept, Reach-IsRead}
use carrot_rpc.Client.Channel.{key_of, Conns, find_conn, leaves, call_method}
use carrot_rpc.Client.Channel.Keys.{key_of-injective, find_conn-put_conn}
use carrot_rpc.Client.Channel.Runs.{ChannelReach, find_conn-Runs, Reach-Runs}

-- Two pairs of a host and a service.
abbrev pub same_peer : Bytes → Bytes → Bytes → Bytes → Bool
same_peer h s h' s' = bytes_eq h h' && bytes_eq s s'

key_of-same_peer :
    (h s h' s' : Bytes)
    → Lacks b':' s
    → Lacks b':' s'
    → bytes_eq (key_of h s) (key_of h' s') ≡ same_peer h s h' s'
key_of-same_peer h s h' s' l l' = elim (Bool-cases (bytes_eq (key_of h s) (key_of h' s'))) [
  | inl y ↦
      let (hosts, services) = key_of-injective h s h' s' l l' (bytes_eq→eq _ _ y) in
      y ∙ sym (ap₂ (λ h' s'. same_peer h s h' s') (sym hosts) (sym services) ∙ itself)
  | inr z ↦ elim (Bool-cases (same_peer h s h' s')) [
    | inr e ↦ z ∙ sym e
    | inl e ↦
        let hosts : h ≡ h' = bytes_eq→eq h h' (ground (arith, e)) in
        let services : s ≡ s' = bytes_eq→eq s s' (ground (arith, e)) in
        cc (
          sym z
          ∙ ap (bytes_eq (key_of h s)) (sym (ap₂ key_of hosts services))
          ∙ bytes_eq_refl (key_of h s))
  ]
]
  where
    itself : same_peer h s h s ≡ true
    itself = rw (bytes_eq_refl h, bytes_eq_refl s) refl

-- The stored connection, or a new one.
abbrev pub or_new : {Msg : Type 0} → Option (Connection Msg) → Connection Msg
or_new none = new_connection
or_new (some c) = c

module _ {Msg : Type 0} (env : Environment Msg) (method : Bytes) (ctl : Controller) (request : Msg)
    (s t : Conns Msg) where
  -- The connection that this call and the later ones to its peer use.
  abbrev pub used : Connection Msg
  used = or_new (find_conn (key_of ctl.host ctl.service) s)

  -- What a call has done, as the peer at `host` and `service` sees it.
  pub record Shares (host service : Bytes) : Type 0 where
    pub after : Connection Msg
    pub left : Leaves (issue env method ctl request used) after
    pub stored : find_conn (key_of host service) t ≡ (
        if same_peer ctl.host ctl.service host service
        then some after
        else find_conn (key_of host service) s)
    pub run : Step.Reach env after
    pub kept : AreKept nobody after
    pub read : IsRead after

  -- What the call leaves in the map, whether issue returns or throws.
  leaves-stored :
      (key : Bytes) (r : Result Msg)
      → leaves key r s ≡ some t
      → (d : Connection Msg) × Leaves r d
        × ((k : Bytes) → find_conn k t ≡ (if bytes_eq key k then some d else find_conn k s))
  leaves-stored key (returned d) e =
      (d, refl, λ k. ap (find_conn k) (sym (cc e)) ∙ find_conn-put_conn key k d s)
  leaves-stored key (threw d what) e =
      (d, refl, λ k. ap (find_conn k) (sym (cc e)) ∙ find_conn-put_conn key k d s)
  leaves-stored key faulted e = cc
  leaves-stored key hangs e = cc

  issued :
      call_method env method ctl request s ≡ some t
      → leaves (key_of ctl.host ctl.service) (issue env method ctl request used) s ≡ some t
  unfolding call_method
  issued e = go (find_conn (key_of ctl.host ctl.service) s) e
    where
      key : Bytes
      key = key_of ctl.host ctl.service

      go :
          (o : Option (Connection Msg))
          → elim o [
            | none ↦ leaves key (issue env method ctl request new_connection) s
            | some c ↦ leaves key (issue env method ctl request c) s
          ]
            ≡ some t
          → leaves key (issue env method ctl request (or_new o)) s ≡ some t
      go none e = e
      go (some c) e = e

  used-Runs : ChannelReach env s → Step.Reach env used
  used-Runs r = go (find_conn (key_of ctl.host ctl.service) s) refl
    where
      go :
          (o : Option (Connection Msg))
          → find_conn (key_of ctl.host ctl.service) s ≡ o
          → Step.Reach env (or_new o)
      go none e = fresh
      go (some c) e = find_conn-Runs env (key_of ctl.host ctl.service) s c (Reach-Runs env s r) e

  -- In every run of a channel, in which the user calls methods on any hosts and asio calls handlers
  -- back in any order, a call that ends, by returning or by an exception, is issued on the
  -- connection that is stored for its host and service, and on a new one only if none is; what issue
  -- makes of it is the connection that the next call to the same host and service finds, and every
  -- other pair of a host and a service, if there is no colon in the services, finds what it found
  -- before. That connection has had a run of its own, so that on it no call is forgotten or ended
  -- twice, and if its socket is open or a call is outgoing, a handler is pending that connects or
  -- reads.
  pub call_method-Shares :
      (host service : Bytes)
      → ChannelReach env s
      → call_method env method ctl request s ≡ some t
      → Lacks b':' ctl.service
      → Lacks b':' service
      → Shares host service
  call_method-Shares host service r e l l' =
      let (d, left, stored) =
        leaves-stored (key_of ctl.host ctl.service) (issue env method ctl request used)
          (issued e) in
      let run : Step.Reach env d = next {c = used} (used-Runs r) (issues method ctl request left) in
      record {
        after = d;
        left = left;
        stored =
            stored (key_of host service)
            ∙ ap (λ b. if b then some d else find_conn (key_of host service) s)
                (key_of-same_peer ctl.host ctl.service host service l l');
        run = run;
        kept = Reach-AreKept env d run;
        read = Reach-IsRead env d run;
      }
