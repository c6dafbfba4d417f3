-- ===== src/Io/Stale.antt =====
-- What read_n does at the end of the stream. ::read returns 0 there and leaves errno as it was, so the
-- loop looks at the errno of an earlier failure.
use carrot_rpc.Prelude.{
  ℕ, zero, suc, ◌-◌, ◌<◌, ◌≡◌, ◌≢◌, refl, arith, List, [], ◌∷◌, ◌++◌, Bytes, length, take, drop,
  length-drop, ◌==◌, Bool-cases, inl, inr,
}
use carrot_rpc.Io.{
  Turn, serves, fails, eintr, Socket, Outcome, completed, broken, waiting, chunk, read_loop, read_n,
  IsHarmless, IsServing, count_serves,
}

read_loop_spins :
    (ts : List Turn) (input output : Bytes) (missing : ℕ) (buf : Bytes)
    → IsHarmless ts
    → length input < missing
    → read_loop ts input output eintr missing buf ≡ waiting
unfolding read_loop
read_loop_spins ts input output zero buf harmless short = absurd (omega arith)
read_loop_spins [] input output (suc missing) buf harmless short = refl
read_loop_spins (fails e ∷ ts) input output (suc missing) buf harmless short =
    rw harmless.0 (read_loop_spins ts input output (suc missing) buf harmless.1 short)
read_loop_spins (serves k ∷ ts) input output (suc missing) buf harmless short =
    let j = chunk k (suc missing) (length input) in
    elim (Bool-cases (j == 0)) [
      | inl none_left ↦
          rw none_left (read_loop_spins ts input output (suc missing) buf harmless short)
      | inr some_left ↦ rw some_left (
          read_loop_spins ts (drop j input) output (suc missing - j) (buf ++ take j input) harmless
            (omega (arith, length-drop j input)))
    ]

-- Once a call was interrupted, so that errno is EINTR, read_n never comes back from a stream that ends
-- before n bytes: however often ::read is called and returns 0, or is interrupted again, the loop goes on.
pub read_n_spins :
    (s : Socket) (n : ℕ)
    → s.errno ≡ eintr
    → IsHarmless s.turns
    → length s.input < n
    → read_n s n ≡ waiting
unfolding read_n
read_n_spins s n e harmless short =
    rw e (read_loop_spins s.turns s.input s.output n [] harmless short)

abbrev pub Fails : Outcome Bytes → Type 0
Fails (completed b s) = ⊥
Fails (broken s) = s.input ≡ []
Fails waiting = ⊥

read_loop-Fails :
    (ts : List Turn) (input output : Bytes) (errno missing : ℕ) (buf : Bytes)
    → IsServing ts
    → errno ≢ eintr
    → length input < missing
    → length input < count_serves ts
    → Fails (read_loop ts input output errno missing buf)
unfolding read_loop
read_loop-Fails ts input output errno zero buf serving fresh short turns = absurd (omega arith)
read_loop-Fails [] input output errno (suc missing) buf serving fresh short turns =
    absurd (omega arith)
read_loop-Fails (fails e ∷ ts) input output errno (suc missing) buf serving fresh short turns =
    absurd serving
read_loop-Fails (serves k ∷ ts) [] output errno (suc missing) buf serving fresh short turns =
    ground (arith, fresh)
read_loop-Fails (serves k ∷ ts) (b ∷ input) output errno (suc missing) buf serving fresh short
      turns =
    let j = chunk k (suc missing) (length (b ∷ input)) in
    elim (Bool-cases (j == 0)) [
      | inl none_left ↦ absurd (ground (arith, none_left))
      | inr some_left ↦ rw some_left (
          read_loop-Fails ts (drop j (b ∷ input)) output errno (suc missing - j)
            (buf ++ take j (b ∷ input)) serving fresh (omega (arith, length-drop j (b ∷ input)))
            (omega (arith, length-drop j (b ∷ input))))
    ]

-- With any other errno, and served calls only, read_n reports a stream that ends before n bytes, after
-- it has taken all of it.
pub read_n-Fails :
    (s : Socket) (n : ℕ)
    → IsServing s.turns
    → s.errno ≢ eintr
    → length s.input < n
    → length s.input < count_serves s.turns
    → Fails (read_n s n)
unfolding read_n
read_n-Fails s n = read_loop-Fails s.turns s.input s.output s.errno n []
