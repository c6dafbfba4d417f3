-- ===== src/Io/Reading.antt =====
-- What read_n returns.
use carrot_rpc.Prelude.{
  ℕ, zero, suc, ◌+◌, ◌-◌, ◌≤◌, ◌≡◌, refl, ap, subst, sym, ◌∙◌, arith, List, [], ◌∷◌, ◌++◌, Bytes,
  length, take, drop, take-append-drop, length-append, length-take, length-drop, take-add, drop-add,
  ◌==◌, Bool-cases, inl, inr,
}
use Prim.Native.Nat.add
use mathlib.Core.Path.{subst₂}
use mathlib.Core.List.{append-nil, append_assoc}
use carrot_rpc.Io.{
  Turn, serves, fails, eintr, Socket, Outcome, completed, broken, waiting, chunk, read_loop, read_n,
  IsHarmless, count_serves,
}

-- What a call of read_n may have done when it is over: all bytes asked for were moved in order from the
-- socket to the buffer, or the call failed.
abbrev pub Moves : Bytes → ℕ → Outcome Bytes → Type 0
Moves stream n (completed buf s) = (length buf ≡ n) × (buf ++ s.input ≡ stream)
Moves stream n (broken s) = (moved : Bytes) × (moved ++ s.input ≡ stream)
Moves stream n waiting = Unit {0}

-- The bytes read so far and those still in the socket are the stream.
regroup : (k : ℕ) (buf input : Bytes) → (buf ++ take k input) ++ drop k input ≡ buf ++ input
regroup k buf input =
    append_assoc buf (take k input) (drop k input) ∙ ap (◌++◌ buf) (take-append-drop k input)

still_missing :
    (j : ℕ) (buf input : Bytes) (missing : ℕ)
    → j ≤ missing
    → j ≤ length input
    → length (buf ++ take j input) + (missing - j) ≡ length buf + missing
still_missing j buf input missing h g =
    omega (arith, length-append buf (take j input), length-take j input)

-- What the next round does from its own buffer, told from the buffer before.
Moves-round :
    (j : ℕ) (buf input : Bytes) (missing : ℕ) (r : Outcome Bytes)
    → j ≤ missing
    → j ≤ length input
    → Moves ((buf ++ take j input) ++ drop j input) (length (buf ++ take j input) + (missing - j)) r
    → Moves (buf ++ input) (length buf + missing) r
Moves-round j buf input missing r h g =
    subst₂ (λ stream n. Moves stream n r) (regroup j buf input)
      (still_missing j buf input missing h g)

read_loop-Moves :
    (ts : List Turn) (input output : Bytes) (errno missing : ℕ) (buf : Bytes)
    → Moves (buf ++ input) (length buf + missing) (read_loop ts input output errno missing buf)
unfolding read_loop
read_loop-Moves ts input output errno zero buf = (omega arith, refl)
read_loop-Moves [] input output errno (suc missing) buf = tt
read_loop-Moves (fails e ∷ ts) input output errno (suc missing) buf =
    elim (Bool-cases (e == eintr)) [
      | inl y ↦ rw y (read_loop-Moves ts input output e (suc missing) buf)
      | inr z ↦ rw z (buf, refl)
    ]
read_loop-Moves (serves k ∷ ts) input output errno (suc missing) buf =
    let j = chunk k (suc missing) (length input) in
    elim (Bool-cases (j == 0)) [
      | inl none_left ↦ rw none_left (elim (Bool-cases (errno == eintr)) [
        | inl y ↦ rw y (read_loop-Moves ts input output errno (suc missing) buf)
        | inr z ↦ rw z (buf, refl)
      ])
      | inr some_left ↦ rw some_left (
          Moves-round j buf input (suc missing)
            (read_loop ts (drop j input) output errno (suc missing - j) (buf ++ take j input))
            (omega arith) (omega arith)
            (read_loop-Moves ts (drop j input) output errno (suc missing - j)
              (buf ++ take j input)))
    ]

-- Whatever the kernel answers: when read_n returns 0, the buffer holds exactly the next n bytes of the
-- stream, and when it returns -1 it has taken a prefix of the stream and nothing else.
pub read_n-Moves : (s : Socket) (n : ℕ) → Moves s.input n (read_n s n)
unfolding read_n
read_n-Moves s n =
    subst (λ k. Moves s.input k (read_n s n)) (add.zero n)
      (read_loop-Moves s.turns s.input s.output s.errno n [])

-- A call that succeeds with these bytes and leaves this input and output, and harmless turns: of `c`
-- that served it has used up `n` at most.
abbrev pub Gives : Bytes → Bytes → Bytes → ℕ → ℕ → Outcome Bytes → Type 0
Gives got input output n c (completed buf s) =
    (buf ≡ got)
    × (s.input ≡ input)
    × (s.output ≡ output)
    × IsHarmless s.turns
    × (c ≤ count_serves s.turns + n)
Gives got input output n c (broken s) = ⊥
Gives got input output n c waiting = ⊥

Gives-round :
    (j : ℕ) (buf input output : Bytes) (missing c : ℕ) (r : Outcome Bytes)
    → 1 ≤ j
    → j ≤ missing
    → Gives
        ((buf ++ take j input) ++ take (missing - j) (drop j input))
        (drop (missing - j) (drop j input))
        output
        (missing - j)
        c
        r
    → Gives (buf ++ take missing input) (drop missing input) output missing (suc c) r
Gives-round j buf input output missing c (completed b s) pos h (e, i, o, harmless, u) = (
  e
      ∙ append_assoc buf (take j input) _
      ∙ ap (◌++◌ buf) (take-add j (missing - j) input ∙ ap (λ n. take n input) whole),
  i ∙ drop-add j (missing - j) input ∙ ap (λ n. drop n input) whole,
  o,
  harmless,
  omega arith,
)
  where
    whole : j + (missing - j) ≡ missing
    whole = omega arith
Gives-round j buf input output missing c (broken s) pos h g = absurd g
Gives-round j buf input output missing c waiting pos h g = absurd g

read_loop-Gives :
    (ts : List Turn) (input output : Bytes) (errno missing : ℕ) (buf : Bytes)
    → IsHarmless ts
    → missing ≤ count_serves ts
    → missing ≤ length input
    → Gives
        (buf ++ take missing input)
        (drop missing input)
        output
        missing
        (count_serves ts)
        (read_loop ts input output errno missing buf)
unfolding read_loop
read_loop-Gives ts input output errno zero buf harmless turns bytes =
    (sym (append-nil buf), refl, refl, harmless, omega arith)
read_loop-Gives [] input output errno (suc missing) buf harmless turns bytes = absurd (omega arith)
read_loop-Gives (fails e ∷ ts) input output errno (suc missing) buf harmless turns bytes =
    rw harmless.0 (read_loop-Gives ts input output eintr (suc missing) buf harmless.1 turns bytes)
read_loop-Gives (serves k ∷ ts) input output errno (suc missing) buf harmless turns bytes =
    let j = chunk k (suc missing) (length input) in
    elim (Bool-cases (j == 0)) [
      | inl none_left ↦ absurd (ground (arith, none_left))
      | inr some_left ↦ rw some_left (
          Gives-round j buf input output (suc missing) (count_serves ts)
            (read_loop ts (drop j input) output errno (suc missing - j) (buf ++ take j input))
            (omega arith) (omega arith)
            (read_loop-Gives ts (drop j input) output errno (suc missing - j) (buf ++ take j input)
              harmless (omega arith) (omega (arith, length-drop j input))))
    ]

-- If the n bytes are in the socket and the kernel answers with nothing worse than an interruption, read_n
-- succeeds once n calls were served, however the bytes are cut into chunks and wherever the
-- interruptions fall: the buffer holds the first n bytes, the rest stays in the socket, nothing is written,
-- and n served calls at most were used.
pub read_n-Gives :
    (s : Socket) (n : ℕ)
    → IsHarmless s.turns
    → n ≤ count_serves s.turns
    → n ≤ length s.input
    → Gives (take n s.input) (drop n s.input) s.output n (count_serves s.turns) (read_n s n)
unfolding read_n
read_n-Gives s n = read_loop-Gives s.turns s.input s.output s.errno n []
