-- ===== src/Io.antt =====
-- read_n and write_n of src/common/utils.cpp over a connected socket. The kernel's answers to the
-- calls of ::read and ::write are a list of turns: `serves k` lets up to k + 1 bytes through, `fails e`
-- is -1 with errno e. A read that is served when no input is left is end of file: it returns 0 and does
-- not touch errno. `waiting` is no result of the code: the turns are used up inside the loop.
pub mod Reading
pub mod Writing
pub mod Stale
mod Examples
use carrot_rpc.Prelude.{
  ℕ, zero, suc, ◌+◌, ◌-◌, ◌≡◌, List, [], ◌∷◌, ◌++◌, min, Bytes, length, take, drop, ◌==◌,
  if◌then◌else◌,
}

pub data Turn : Type 0 where
  serves : ℕ → Turn
  fails : ℕ → Turn

abbrev pub eintr : ℕ
eintr = 4

-- `input` is what the peer has sent and nobody has read yet, `output` what was written to the peer.
pub record Socket : Type 0 where
  pub input : Bytes
  pub output : Bytes
  pub turns : List Turn
  pub errno : ℕ

-- 0 with a value, -1, or neither.
pub data Outcome {ℓ} (A : Type ℓ) : Type ℓ where
  completed : A → Socket → Outcome A
  broken : Socket → Outcome A
  waiting : Outcome A

abbrev pub socket_after : Bytes → Bytes → List Turn → ℕ → Socket
socket_after i o ts e = record { input = i; output = o; turns = ts; errno = e }

-- The number of bytes that one call moves.
abbrev pub chunk : ℕ → ℕ → ℕ → ℕ
chunk k wanted available = min (suc k) (min wanted available)

-- The loop of read_n: `missing` is n - n0, `buf` holds the first n0 bytes.
unfoldable pub read_loop : List Turn → Bytes → Bytes → ℕ → ℕ → Bytes → Outcome Bytes
read_loop ts input output errno zero buf = completed buf (socket_after input output ts errno)
read_loop [] input output errno (suc missing) buf = waiting
read_loop (fails e ∷ ts) input output errno (suc missing) buf =
    let again = read_loop ts input output e (suc missing) buf in
    if e == eintr then again else broken (socket_after input output ts e)
read_loop (serves k ∷ ts) input output errno (suc missing) buf =
    let nread = chunk k (suc missing) (length input) in
    let again = read_loop ts input output errno (suc missing) buf in
    let next =
      read_loop ts (drop nread input) output errno (suc missing - nread)
        (buf ++ take nread input) in
    if nread == 0
    then if errno == eintr then again else broken (socket_after input output ts errno)
    else next

unfoldable pub read_n : Socket → ℕ → Outcome Bytes
read_n s n = read_loop s.turns s.input s.output s.errno n []

-- The loop of write_n: `rest` is what stands behind the first n0 bytes of the buffer.
unfoldable pub write_loop : List Turn → Bytes → Bytes → ℕ → Bytes → Outcome (Unit {0})
write_loop ts input output errno [] = completed tt (socket_after input output ts errno)
write_loop [] input output errno (b ∷ rest) = waiting
write_loop (fails e ∷ ts) input output errno (b ∷ rest) =
    let again = write_loop ts input output e (b ∷ rest) in
    if e == eintr then again else broken (socket_after input output ts e)
write_loop (serves k ∷ ts) input output errno (b ∷ rest) =
    let nwrite = min k (length rest) in
    write_loop ts input (output ++ take (suc nwrite) (b ∷ rest)) errno
      (drop (suc nwrite) (b ∷ rest))

unfoldable pub write_n : Socket → Bytes → Outcome (Unit {0})
write_n s bytes = write_loop s.turns s.input s.output s.errno bytes

-- No turn but those that let bytes through and those that report an interruption by a signal.
abbrev pub IsHarmless : List Turn → Type 0
IsHarmless [] = Unit {0}
IsHarmless (serves k ∷ ts) = IsHarmless ts
IsHarmless (fails e ∷ ts) = (e ≡ eintr) × IsHarmless ts

abbrev pub IsServing : List Turn → Type 0
IsServing [] = Unit {0}
IsServing (serves k ∷ ts) = IsServing ts
IsServing (fails e ∷ ts) = ⊥

abbrev pub count_serves : List Turn → ℕ
count_serves [] = 0
count_serves (serves k ∷ ts) = suc (count_serves ts)
count_serves (fails e ∷ ts) = count_serves ts
