-- ===== src/Client/Async/Sound.antt =====
-- What holds in every run of a connection.
use carrot_rpc.Prelude.{
  ℕ, ◌≡◌, inl, inr, refl, ap, true, false, ◌||◌, List, [], ◌∷◌, ◌++◌, Bytes, arith,
}
use carrot_rpc.Client.Async.{
  CallTask, Pending, resolving, connecting, writing, timing, reading_header, reading_payload,
  Connection, Environment, elem,
}
use carrot_rpc.Client.Async.Calls.{Error}
use carrot_rpc.Client.Async.Once.{
  carries, awaits, RunsOnce, IsHeld, Every, Every-weakens, nobody, AreKept, After,
}
use carrot_rpc.Client.Async.Kept.{lists-AreKept}
use carrot_rpc.Client.Async.Handled.{
  issue-AreKept, handle_resolve-AreKept, handle_connect-AreKept, handle_write-AreKept,
}
use carrot_rpc.Client.Async.Replies.{
  handle_timeout-AreKept, handle_read_header-AreKept, handle_read_payload-AreKept,
}
use carrot_rpc.Client.Async.Reading.{is_reader, has_reader, IsRead}
use carrot_rpc.Client.Async.Alert.{issue-IsRead, call_back-IsRead}
use carrot_rpc.Client.Async.Step.{
  call_back, After-Leaves, Step, issues, calls_back, Reach, fresh, next,
}

-- A handler that is taken off the list.
awaits-split :
    (i : ℕ) (before after : List Pending) (h : Pending)
    → awaits i (before ++ (h ∷ after)) ≡ (carries h i || awaits i (before ++ after))
awaits-split i [] after h = refl
awaits-split i (b ∷ before) after h = ground (arith, awaits-split i before after h)

has_reader-split :
    (before after : List Pending) (h : Pending)
    → has_reader (before ++ (h ∷ after)) ≡ (is_reader h || has_reader (before ++ after))
has_reader-split [] after h = refl
has_reader-split (b ∷ before) after h = ground (arith, has_reader-split before after h)

module _ {Msg : Type 0} (env : Environment Msg) where
  call_back-AreKept :
      (h : Pending) (e : Error) (bytes : Bytes) (c : Connection Msg)
      → AreKept (carries h) c
      → After (AreKept nobody) (call_back env h e bytes c)
  call_back-AreKept (resolving k) e bytes c kept = handle_resolve-AreKept env k e c kept
  call_back-AreKept (connecting k) e bytes c kept = handle_connect-AreKept env k e c kept
  call_back-AreKept (writing k) e bytes c kept = handle_write-AreKept env k e c kept
  call_back-AreKept (timing k) e bytes c kept = handle_timeout-AreKept env k e c kept
  call_back-AreKept reading_header e bytes c kept = handle_read_header-AreKept env e bytes c kept
  call_back-AreKept reading_payload e bytes c kept = handle_read_payload-AreKept env e bytes c kept

  -- No call of the user, whatever the connection does, is forgotten or ended twice, and outgoing calls are read for.
  abbrev IsSound : Connection Msg → Type 0
  IsSound c = AreKept nobody c × IsRead c

  Step-IsSound : (c d : Connection Msg) → Step env c d → IsSound c → IsSound d
  Step-IsSound c d (issues method controller request l) (kept, read) = (
    After-Leaves (AreKept nobody) _ d (issue-AreKept env method controller request c kept) l,
    After-Leaves IsRead _ d (issue-IsRead env method controller request c read) l,
  )
  Step-IsSound c d (calls_back before after h e bytes at l) (kept, read) = (
    After-Leaves (AreKept nobody) _ d (call_back-AreKept h e bytes rest without) l,
    After-Leaves IsRead _ d (call_back-IsRead env h e bytes rest still_read) l,
  )
    where
      rest : Connection Msg
      rest = record c { pending = before ++ after }

      without : AreKept (carries h) rest
      without =
          lists-AreKept env nobody (carries h) c rest refl
            (λ i held. ground (arith, held, ap (awaits i) at, awaits-split i before after h)) kept

      still_read : is_reader h ≡ false → IsRead rest
      still_read other = elim read [
        | inl idle ↦ inl idle
        | inr r ↦ inr (ground (arith, r, other, ap has_reader at, has_reader-split before after h))
      ]

  Reach-IsSound : (c : Connection Msg) → Reach env c → IsSound c
  Reach-IsSound c fresh = (tt, inl (refl, refl))
  Reach-IsSound d (next {c} r s) = Step-IsSound c d s (Reach-IsSound c r)

  -- In every run, whatever errors asio reports and in whatever order it calls the handlers back, the callback of a
  -- call was run once if the call is marked as called and not at all if it is not, and a call that is not is in
  -- the map of outgoing calls or in the hands of a handler that resolves or connects.
  pub Reach-AreKept : (c : Connection Msg) → Reach env c → AreKept nobody c
  Reach-AreKept c r = (Reach-IsSound c r).0

  -- In every run, if the socket is open or a call is outgoing, a handler is pending that connects or reads.
  pub Reach-IsRead : (c : Connection Msg) → Reach env c → IsRead c
  Reach-IsRead c r = (Reach-IsSound c r).1

  -- In every run, once asio owes the connection no handler, every call that was issued is over and its
  -- callback was run exactly once.
  pub Reach-Done :
      (c : Connection Msg)
      → Reach env c
      → c.pending ≡ []
      → Every (λ t. (t.called ≡ true) × (t.runs ≡ 1)) c.tasks
  Reach-Done c r idle = go (Reach-IsSound c r)
    where
      go : IsSound c → Every (λ t. (t.called ≡ true) × (t.runs ≡ 1)) c.tasks
      go (kept, inr read) = cc (read, ap has_reader idle)
      go (kept, inl (closed, no_calls)) =
          Every-weakens _ _
            (λ t (once, held). over t once held (ap (elem t.id) no_calls) (ap (awaits t.id) idle))
            c.tasks kept
        where
          over :
              (t : CallTask Msg)
              → RunsOnce t
              → IsHeld nobody c.outgoing_tasks c.pending t
              → elem t.id c.outgoing_tasks ≡ false
              → awaits t.id c.pending ≡ false
              → (t.called ≡ true) × (t.runs ≡ 1)
          over t once held no_call no_handler = ground arith
