-- ===== src/Server/Async/Called.antt =====
-- What a handler that asio calls back does to an asynchronous server.
use carrot_rpc.Prelude.{
  ℕ, ◌+◌, ◌≡◌, ◌⊎◌, refl, sym, inl, inr, ap, subst, ◌∙◌, Bool, true, false, List, [], ◌∷◌, ◌++◌,
  Bytes, Every, Every-middle, arith, if◌then◌else◌,
}
use carrot_rpc.Asio.{Error, no_error, eof, error}
use carrot_rpc.Buffer.{IsConsistent}
use carrot_rpc.Server.Simple.{Environment}
use carrot_rpc.Server.Async.{
  Pending, accepting, reading_header, reading_payload, writing_response, Connection, AsyncServer,
  Ended, finished, raised, crashed, spins, and_then,
}
use carrot_rpc.Server.Async.Handlers.{start_accept, put, accept, handle_accept}
use carrot_rpc.Server.Async.Step.{After, within, call_back}
use carrot_rpc.Server.Async.Phase.{
  IsLinked, HasRoom, Refuses, Phase, awaits, busy, over, stalled, accepts, Ran, Runs, Serving,
  IsIdle, serve-Serving, handle_read_header-Runs, handle_write_response-Runs,
}
use carrot_rpc.Server.Async.Payload.{handle_read_payload-Runs}

abbrev pub accept_count : List Connection → ℕ
accept_count [] = 0
accept_count (c ∷ cs) = accepts c.pending + accept_count cs

accept_count-middle :
    (before : List Connection) (c : Connection) (after : List Connection)
    → accept_count (before ++ (c ∷ after)) ≡ accepts c.pending + accept_count (before ++ after)
accept_count-middle [] c after = refl
accept_count-middle (b ∷ before) c after = omega (arith, accept_count-middle before c after)

-- A handler that is taken off a list that holds one.
alone :
    (x : Pending) (earlier : List Pending) (h : Pending) (later : List Pending)
    → x ∷ [] ≡ earlier ++ (h ∷ later)
    → (earlier ++ later ≡ []) × (x ≡ h)
alone x [] h later e = (cc e, cc e)
alone x (y ∷ []) h later e = cc
alone x (y ∷ (z ∷ earlier)) h later e = cc

nowhere :
    (earlier : List Pending) (h : Pending) (later : List Pending) → [] ≡ earlier ++ (h ∷ later) → ⊥
nowhere [] h later e = cc
nowhere (y ∷ earlier) h later e = cc

module _ {Msg : Type 0} (env : Environment Msg) where
  -- One accept is pending, or none after the allocator refused.
  abbrev pub Accepts : List Connection → Type 0
  Accepts cs = (accept_count cs ≡ 1) ⊎ (Refuses env.grants × (accept_count cs ≡ 0))

  pub record IsSound (s : AsyncServer Msg) : Type 0 where
    pub phases : Every (Phase env.grants s.alive) s.connections
    pub acceptor : s.alive ≡ true → Accepts s.connections

  module _ (s : AsyncServer Msg) (sound : IsSound s) (before : List Connection) (c : Connection)
      (after : List Connection) (at : s.connections ≡ before ++ (c ∷ after)) where
    phase-at :
        Phase env.grants s.alive c
        × ((d : Connection)
            → Phase env.grants s.alive d
            → Every (Phase env.grants s.alive) (before ++ (d ∷ after)))
    phase-at =
        Every-middle (Phase env.grants s.alive) before c after
          (subst (Every (Phase env.grants s.alive)) at sound.phases)

    -- A connection that waits for no client is put in the place of one that did not.
    put-IsSound :
        (d : Connection)
        → accepts c.pending ≡ 0
        → Ran env.grants s.alive d
        → IsSound (put before after s d)
    put-IsSound d none_before (phase, none_after) = record {
      phases = phase-at.1 d phase;
      acceptor = λ living.
          subst (λ n. (n ≡ 1) ⊎ (Refuses env.grants × (n ≡ 0))) same (sound.acceptor living);
    }
      where
        same : accept_count s.connections ≡ accept_count (before ++ (d ∷ after))
        same = omega (
          arith,
          ap accept_count at,
          accept_count-middle before c after,
          accept_count-middle before d after,
          none_before,
          none_after,
        )

    within-IsSound :
        (r : Ended Connection)
        → accepts c.pending ≡ 0
        → Runs env s.alive r
        → After IsSound (within env before after s r)
    within-IsSound (finished d) none_before h = put-IsSound d none_before h
    within-IsSound (raised d what) none_before h = put-IsSound d none_before h
    within-IsSound crashed none_before h = tt
    within-IsSound spins none_before h = tt

    -- While the connection waits for its client, no other one does.
    others : s.alive ≡ true → accepts c.pending ≡ 1 → accept_count (before ++ after) ≡ 0
    others living one = elim (sound.acceptor living) [
      | inl single ↦
          omega (arith, ap accept_count at, accept_count-middle before c after, one, single)
      | inr (_, none) ↦
          omega (arith, ap accept_count at, accept_count-middle before c after, one, none)
    ]

    accepted-IsSound :
        (r : Ended Connection)
        → accepts c.pending ≡ 1
        → Serving env s.alive r
        → After IsSound (
            and_then r
              (put before after s)
              λ d. if s.alive then finished (start_accept (put before after s d)) else crashed)
    unfolding start_accept
    accepted-IsSound (finished d) one (phase, none) = go s.alive refl
      where
        go :
            (b : Bool)
            → s.alive ≡ b
            → After IsSound (if b then finished (start_accept (put before after s d)) else crashed)
        go false z = tt
        go true y = record {
          phases = (awaits refl refl (ground (arith, y)) (inl refl), phase-at.1 d phase);
          acceptor =
              λ living. inl (omega (arith, accept_count-middle before d after, none, others y one));
        }
    accepted-IsSound (raised d what) one ((phase, none), refused) = record {
      phases = phase-at.1 d phase;
      acceptor = λ living.
          inr (refused, omega (arith, accept_count-middle before d after, none, others living one));
    }
    accepted-IsSound crashed one h = tt
    accepted-IsSound spins one h = tt

    -- The connection with the handler taken that asio calls back.
    abbrev idle : Connection
    idle = record c { pending = [] }

    accept-Serving :
        (e : Error)
        → c.opened ≡ false
        → IsLinked s.alive c
        → IsConsistent c.buffer
        → Serving env s.alive (accept env e idle)
    accept-Serving no_error closed linked consistent =
        serve-Serving env s.alive (record idle { opened = true })
          (record { nothing = refl; opened = refl; linked = linked }) consistent
    accept-Serving eof closed linked consistent = (over refl closed, refl)
    accept-Serving (error what) closed linked consistent = (over refl closed, refl)

    is_idle : c.opened ≡ true → IsLinked s.alive c → IsIdle env s.alive idle
    is_idle o l = record { nothing = refl; opened = o; linked = l }

    busy-IsSound :
        (h : Pending) (e : Error) (bytes : Bytes)
        → c.pending ≡ h ∷ []
        → c.opened ≡ true
        → IsLinked s.alive c
        → HasRoom c h
        → After IsSound (call_back env h e bytes before idle after s)
    busy-IsSound accepting e bytes p o l room = absurd room
    busy-IsSound reading_header e bytes p o l (whole, _) =
        within-IsSound _ (ap accepts p)
          (handle_read_header-Runs env s.alive s.services e bytes idle (is_idle o l) (inr whole))
    busy-IsSound reading_payload e bytes p o l ((whole, _), _, _) =
        within-IsSound _ (ap accepts p)
          (handle_read_payload-Runs env s.alive s.services e bytes idle (is_idle o l) (inr whole))
    busy-IsSound writing_response e bytes p o l w =
        within-IsSound _ (ap accepts p)
          (handle_write_response-Runs env s.alive s.services e idle (is_idle o l) (inr (w.held.0)))

    pub call_back-IsSound :
        (earlier : List Pending) (h : Pending) (later : List Pending) (e : Error) (bytes : Bytes)
        → c.pending ≡ earlier ++ (h ∷ later)
        → After IsSound
            (call_back env h e bytes before (record c { pending = earlier ++ later }) after s)
    unfolding handle_accept
    call_back-IsSound earlier h later e bytes p = elim (phase-at.0) [
      | awaits q o l b ↦
          let (rest, same) = alone accepting earlier h later (sym q ∙ p) in
          rw (rest) (
            subst (λ h. After IsSound (call_back env h e bytes before idle after s)) same
              (accepted-IsSound _ (ap accepts q) (accept-Serving e o l b)))
      | busy k q o l room ↦
          let (rest, same) = alone k earlier h later (sym q ∙ p) in
          rw (rest) (
            subst (λ h. After IsSound (call_back env h e bytes before idle after s)) same
              (busy-IsSound k e bytes q o l room))
      | over q o ↦ absurd (nowhere earlier h later (sym q ∙ p))
      | stalled k z q o ↦ absurd (nowhere earlier h later (sym q ∙ p))
    ]
