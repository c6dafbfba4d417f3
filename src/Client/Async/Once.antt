-- ===== src/Client/Async/Once.antt =====
-- Each call is over at most once, and is waited for until then.
use carrot_rpc.Prelude.{
  ℕ, ◌≡◌, inl, inr, refl, sym, subst, Bool, true, false, ◌||◌, List, [], ◌∷◌, ◌++◌, Bytes, text,
  ◌==◌, if◌then◌else◌, arith, Bool-cases,
}
pub use carrot_rpc.Prelude.{Every, Every-weakens}
use carrot_rpc.Controller.{Controller, set_failed}
use carrot_rpc.Client.Async.{
  CallTask, Pending, resolving, connecting, Connection, Environment, elem, erase, insert, on_task,
  at_id, each, run_done, fail_task, destroy,
}
use carrot_rpc.Client.Async.Calls.{Result, returned, threw, faulted, hangs}

-- The handler goes on with a call that is on no list of the connection yet.
abbrev pub carries : Pending → ℕ → Bool
carries (resolving k) i = k == i
carries (connecting k) i = k == i
carries _ i = false

abbrev pub awaits : ℕ → List Pending → Bool
awaits i [] = false
awaits i (h ∷ hs) = carries h i || awaits i hs

-- `called` tells whether done was run, and it was run once at most.
abbrev pub RunsOnce : {Msg : Type 0} → CallTask Msg → Type 0
RunsOnce t = t.runs ≡ (if t.called then 1 else 0)

-- A task that is not over is outgoing, or a handler carries it; `ex` says for which ids nothing is claimed.
abbrev pub IsHeld : {Msg : Type 0} → (ℕ → Bool) → List ℕ → List Pending → CallTask Msg → Type 0
IsHeld ex outgoing pending t =
    (ex t.id || (t.called || (elem t.id outgoing || awaits t.id pending))) ≡ true

abbrev pub nobody : ℕ → Bool
nobody i = false

abbrev pub AreKept : {Msg : Type 0} → (ℕ → Bool) → Connection Msg → Type 0
AreKept ex c = Every (λ t. RunsOnce t × IsHeld ex c.outgoing_tasks c.pending t) c.tasks

-- What holds of the connection that a member function leaves.
abbrev pub After : {Msg : Type 0} → (Connection Msg → Type 0) → Result Msg → Type 0
After P (returned c) = P c
After P (threw c what) = P c
After P faulted = Unit {0}
After P hangs = Unit {0}

pub IsHeld-more :
    {Msg : Type 0} (ex ex' : ℕ → Bool) (out out' : List ℕ) (hs hs' : List Pending)
    (t : CallTask Msg)
    → ((ex t.id || (elem t.id out || awaits t.id hs)) ≡ true
        → (ex' t.id || (elem t.id out' || awaits t.id hs')) ≡ true)
    → IsHeld ex out hs t
    → IsHeld ex' out' hs' t
IsHeld-more ex ex' out out' hs hs' t more h = elim (Bool-cases t.called) [
  | inl y ↦ ground (arith, y)
  | inr z ↦ ground (arith, more, z)
]

pub Every-each :
    {Msg : Type 0} (P Q : CallTask Msg → Type 0) (f : CallTask Msg → CallTask Msg)
    → ((t : CallTask Msg) → P t → Q (f t))
    → (ts : List (CallTask Msg)) → Every P ts
    → Every Q (each f ts)
Every-each P Q f h [] e = tt
Every-each P Q f h (t ∷ ts) (p, e) = (h t p, Every-each P Q f h ts e)

pub elem-insert : (i k : ℕ) (is : List ℕ) → elem i (insert k is) ≡ (k == i || elem i is)
elem-insert i k is = elim (Bool-cases (elem k is)) [
  | inr z ↦ rw (z, insert)
  | inl y ↦ elim (Bool-cases (k == i)) [ inl e ↦ grind arith | inr d ↦ rw (y, d) ]
]

pub elem-erase : (i k : ℕ) (is : List ℕ) → (k == i || elem i (erase k is)) ≡ (k == i || elem i is)
elem-erase i k [] = refl
elem-erase i k (j ∷ is) = ground (arith, elem-erase i k is)

module _ {Msg : Type 0} (env : Environment Msg) where
  fail_task-Once :
      (g : Controller → Controller) (t : CallTask Msg)
      → RunsOnce t
      → RunsOnce (fail_task env g t)
        × ((fail_task env g t).called ≡ true)
        × ((fail_task env g t).id ≡ t.id)
  unfolding fail_task run_done
  fail_task-Once g t o = ground arith

  -- A task that is made over is held whatever the lists.
  pub on_task-AreKept :
      (ex : ℕ → Bool) (k : ℕ) (g : CallTask Msg → Controller → Controller) (c : Connection Msg)
      (outgoing : List ℕ)
      → ((i : ℕ) → (k == i || elem i outgoing) ≡ (k == i || elem i c.outgoing_tasks))
      → AreKept (λ i. k == i || ex i) c
      → AreKept ex (on_task k (λ t. fail_task env (g t) t) (record c { outgoing_tasks = outgoing }))
  on_task-AreKept ex k g c outgoing same = Every-each _ _ _ (λ t (o, held). at_k t o held) c.tasks
    where
      at_k :
          (t : CallTask Msg)
          → RunsOnce t
          → IsHeld (λ i. k == i || ex i) c.outgoing_tasks c.pending t
          → RunsOnce (at_id k (λ t. fail_task env (g t) t) t)
            × IsHeld ex outgoing c.pending (at_id k (λ t. fail_task env (g t) t) t)
      at_k t o held = elim (Bool-cases (t.id == k)) [
        | inl e ↦
            let (once, over, _) = fail_task-Once (g t) t o in rw e (once, ground (arith, over))
        | inr d ↦ rw d (o, ground (arith, same t.id))
      ]

  -- A change that keeps `called`, `runs` and the id, with more on the lists.
  abbrev pub Spares : (CallTask Msg → CallTask Msg) → Type 0
  Spares f =
      (t : CallTask Msg) → ((f t).called ≡ t.called) × ((f t).runs ≡ t.runs) × ((f t).id ≡ t.id)

  pub each-AreKept :
      (ex ex' : ℕ → Bool) (k : ℕ) (f : CallTask Msg → CallTask Msg) (c d : Connection Msg)
      → Spares f
      → d.tasks ≡ each (at_id k f) c.tasks
      → ((i : ℕ)
          → (ex i || (elem i c.outgoing_tasks || awaits i c.pending)) ≡ true
          → (ex' i || (elem i d.outgoing_tasks || awaits i d.pending)) ≡ true)
      → AreKept ex c
      → AreKept ex' d
  each-AreKept ex ex' k f c d spares e more kept =
      subst (Every _) (sym e) (Every-each _ _ _ (λ t (o, held). at_k t o held) c.tasks kept)
    where
      at_k :
          (t : CallTask Msg)
          → RunsOnce t
          → IsHeld ex c.outgoing_tasks c.pending t
          → RunsOnce (at_id k f t) × IsHeld ex' d.outgoing_tasks d.pending (at_id k f t)
      at_k t o held = elim (Bool-cases (t.id == k)) [
        | inl y ↦
            let (called, runs, same) = spares t in
            rw (y, called, runs, same)
              (
                o,
                IsHeld-more ex ex' c.outgoing_tasks d.outgoing_tasks c.pending d.pending t
                    (more t.id) held,
              )
        | inr z ↦ rw z (
          o,
          IsHeld-more ex ex' c.outgoing_tasks d.outgoing_tasks c.pending d.pending t (more t.id)
              held,
        )
      ]

  pub destroy-AreKept :
      (ex : ℕ → Bool) (reason : Bytes) (c : Connection Msg)
      → AreKept ex c
      → AreKept ex (destroy env reason c)
  unfolding destroy
  destroy-AreKept ex reason c = Every-each _ _ _ (λ t (o, held). over t o held) c.tasks
    where
      g : Controller → Controller
      g controller = set_failed controller (text "rpc failed: " ++ reason)

      over :
          (t : CallTask Msg)
          → RunsOnce t
          → IsHeld ex c.outgoing_tasks c.pending t
          → RunsOnce (if elem t.id c.outgoing_tasks then fail_task env g t else t)
            × IsHeld ex [] c.pending (if elem t.id c.outgoing_tasks then fail_task env g t else t)
      over t o held = elim (Bool-cases (elem t.id c.outgoing_tasks)) [
        | inl y ↦ let (once, over, _) = fail_task-Once g t o in rw y (once, ground (arith, over))
        | inr z ↦ rw z (o, ground (arith, z))
      ]
