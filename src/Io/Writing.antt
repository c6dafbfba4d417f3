-- ===== src/Io/Writing.antt =====
-- What write_n returns.
use carrot_rpc.Prelude.{
  ℕ, suc, ◌≤◌, ◌≡◌, ◌≢◌, refl, sym, ap, ◌∙◌, arith, List, [], ◌∷◌, ◌++◌, min, Bytes, length, take,
  drop, length-drop, take-append-drop, ◌==◌, Bool-cases, inl, inr, ◌+◌, ◌-◌,
}
use mathlib.Core.List.{append-nil, append_assoc}
use carrot_rpc.Io.{
  Turn, serves, fails, eintr, Socket, Outcome, completed, broken, waiting, write_loop, write_n,
  IsHarmless, count_serves,
}

-- What a call of write_n may have done when it is over: all bytes were appended to the output, or it failed
-- after a proper prefix of them; it takes nothing from the input.
abbrev pub Sends : Bytes → Bytes → Bytes → Outcome (Unit {0}) → Type 0
Sends input output bytes (completed _ s) = (s.output ≡ output ++ bytes) × (s.input ≡ input)
Sends input output bytes (broken s) =
    (sent : Bytes) × (left : Bytes) × (bytes ≡ sent ++ left)
    × (left ≢ [])
    × (s.output ≡ output ++ sent)
    × (s.input ≡ input)
Sends input output bytes waiting = Unit {0}

nothing_sent :
    (b : ℕ) (output rest : Bytes)
    → (sent : Bytes) × (left : Bytes) × (b ∷ rest ≡ sent ++ left)
      × (left ≢ [])
      × (output ≡ output ++ sent)
nothing_sent b output rest = ([], b ∷ rest, refl, (λ e. cc), sym (append-nil output))

Sends-round :
    (j : ℕ) (input output bytes : Bytes) (r : Outcome (Unit {0}))
    → Sends input (output ++ take j bytes) (drop j bytes) r
    → Sends input output bytes r
Sends-round j input output bytes (completed _ s) (o, i) = (
  o
      ∙ append_assoc output (take j bytes) (drop j bytes)
      ∙ ap (◌++◌ output) (take-append-drop j bytes),
  i,
)
Sends-round j input output bytes (broken s) (sent, left, e, n, o, i) = (
  take j bytes ++ sent,
  left,
  sym (take-append-drop j bytes)
      ∙ ap (◌++◌ (take j bytes)) e
      ∙ sym (append_assoc (take j bytes) sent left),
  n,
  o ∙ append_assoc output (take j bytes) sent,
  i,
)
Sends-round j input output bytes waiting t = tt

write_loop-Sends :
    (ts : List Turn) (input output : Bytes) (errno : ℕ) (bytes : Bytes)
    → Sends input output bytes (write_loop ts input output errno bytes)
unfolding write_loop
write_loop-Sends ts input output errno [] = (sym (append-nil output), refl)
write_loop-Sends [] input output errno (b ∷ rest) = tt
write_loop-Sends (fails e ∷ ts) input output errno (b ∷ rest) = elim (Bool-cases (e == eintr)) [
  | inl y ↦ rw y (write_loop-Sends ts input output e (b ∷ rest))
  | inr z ↦
      let (sent, left, whole, some_left, o) = nothing_sent b output rest in
      rw z (sent, left, whole, some_left, o, refl)
]
write_loop-Sends (serves k ∷ ts) input output errno (b ∷ rest) =
    let j = suc (min k (length rest)) in
    Sends-round j input output (b ∷ rest)
      (write_loop ts input (output ++ take j (b ∷ rest)) errno (drop j (b ∷ rest)))
      (write_loop-Sends ts input (output ++ take j (b ∷ rest)) errno (drop j (b ∷ rest)))

-- Whatever the kernel answers: when write_n returns 0, the whole buffer was appended to the output, and
-- when it returns -1, a proper prefix of it was; the input is untouched.
pub write_n-Sends : (s : Socket) (bytes : Bytes) → Sends s.input s.output bytes (write_n s bytes)
unfolding write_n
write_n-Sends s bytes = write_loop-Sends s.turns s.input s.output s.errno bytes

-- A call that is over without a failure and leaves so many served calls and harmless turns.
abbrev pub Succeeds {ℓ} : {A : Type ℓ} → ℕ → Outcome A → Type 0
Succeeds left (completed a s) = IsHarmless s.turns × (left ≤ count_serves s.turns)
Succeeds left (broken s) = ⊥
Succeeds left waiting = ⊥

Succeeds-weakens : {A : Type 0} (n k : ℕ) (r : Outcome A) → n ≤ k → Succeeds k r → Succeeds n r
Succeeds-weakens n k (completed a s) h (harmless, c) = (harmless, omega arith)
Succeeds-weakens n k (broken s) h f = f
Succeeds-weakens n k waiting h f = f

write_loop-Succeeds :
    (ts : List Turn) (input output : Bytes) (errno : ℕ) (bytes : Bytes)
    → IsHarmless ts
    → length bytes ≤ count_serves ts
    → Succeeds (count_serves ts - length bytes) (write_loop ts input output errno bytes)
unfolding write_loop
write_loop-Succeeds ts input output errno [] harmless turns = (harmless, omega arith)
write_loop-Succeeds [] input output errno (b ∷ rest) harmless turns = absurd (omega arith)
write_loop-Succeeds (fails e ∷ ts) input output errno (b ∷ rest) harmless turns =
    rw harmless.0 (write_loop-Succeeds ts input output eintr (b ∷ rest) harmless.1 turns)
write_loop-Succeeds (serves k ∷ ts) input output errno (b ∷ rest) harmless turns =
    let j = suc (min k (length rest)) in
    Succeeds-weakens _ _
      (write_loop ts input (output ++ take j (b ∷ rest)) errno (drop j (b ∷ rest)))
      (omega (arith, length-drop j (b ∷ rest)))
      (write_loop-Succeeds ts input (output ++ take j (b ∷ rest)) errno (drop j (b ∷ rest)) harmless
        (omega (arith, length-drop j (b ∷ rest))))

-- If the kernel answers with nothing worse than an interruption, write_n returns 0 once as many calls
-- were served as there are bytes, however few bytes each of them takes, and it uses no more of them.
pub write_n-Succeeds :
    (s : Socket) (bytes : Bytes)
    → IsHarmless s.turns
    → length bytes ≤ count_serves s.turns
    → Succeeds (count_serves s.turns - length bytes) (write_n s bytes)
unfolding write_n
write_n-Succeeds s bytes = write_loop-Succeeds s.turns s.input s.output s.errno bytes

-- A write that is over and did not fail.
pub record Sent (s : Socket) (bytes : Bytes) : Type 0 where
  pub after : Socket
  pub returned : write_n s bytes ≡ completed tt after
  pub output : after.output ≡ s.output ++ bytes
  pub input : after.input ≡ s.input
  pub harmless : IsHarmless after.turns
  pub turns : count_serves s.turns ≤ count_serves after.turns + length bytes

pub writes :
    (s : Socket) (bytes : Bytes)
    → IsHarmless s.turns
    → length bytes ≤ count_serves s.turns
    → Sent s bytes
writes s bytes h t =
    go (write_n s bytes) refl (write_n-Succeeds s bytes h t) (write_n-Sends s bytes)
  where
    go :
        (r : Outcome (Unit {0}))
        → write_n s bytes ≡ r
        → Succeeds (count_serves s.turns - length bytes) r
        → Sends s.input s.output bytes r
        → Sent s bytes
    go (completed tt a) e (harmless, left) (o, i) = record {
      after = a;
      returned = e;
      output = o;
      input = i;
      harmless = harmless;
      turns = omega arith;
    }
    go (broken a) e f _ = absurd f
    go waiting e f _ = absurd f
