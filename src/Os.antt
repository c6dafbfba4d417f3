-- ===== src/Os.antt =====
-- The operating system as the sockets see it: the descriptors that are open, with their status flags, and the answers
-- that the system gives to the calls of the process, one after the other.
pub mod Descriptors
use carrot_rpc.Prelude.{ℕ, suc, ◌+◌, Bool, true, false, List, [], ◌∷◌, ◌==◌, if◌then◌else◌}

-- The answer to one call: what it returns, or -1 with an errno.
pub data Answer : Type 0 where
  grants : ℕ → Answer
  refuses : ℕ → Answer

-- `wrong_closes` counts the calls of close on a number that is not open.
pub record Os : Type 0 where
  pub fds : List ℕ
  pub flags : ℕ → ℕ
  pub answers : ℕ → Answer
  pub calls : ℕ
  pub errno : ℕ
  pub wrong_closes : ℕ

-- A function that uses the system ends with a result, with -1, or after it has written beyond an object.
pub data Ran (A : Type 0) : Type 0 where
  ran : A → Os → Ran A
  failed : Os → Ran A
  corrupted : Ran A

abbrev pub called : Os → Os
called os = record os { calls = suc os.calls }

-- A call whose answer changes nothing but errno: bind, listen, connect, and F_GETFL.
abbrev pub plain_call : Os → Ran ℕ
plain_call os = elim (os.answers os.calls) [
  | grants n ↦ ran n (called os)
  | refuses e ↦ failed (record (called os) { errno = e })
]

-- ::socket
abbrev pub sys_socket : Os → Ran ℕ
sys_socket os = elim (os.answers os.calls) [
  | grants fd ↦ ran fd (record (called os) { fds = fd ∷ os.fds })
  | refuses e ↦ failed (record (called os) { errno = e })
]

-- ::fcntl(fd, F_SETFL, flags)
abbrev pub sys_setfl : ℕ → ℕ → Os → Ran ℕ
sys_setfl fd flags os = elim (os.answers os.calls) [
  | grants n ↦ ran n (record (called os) { flags = λ k. if k == fd then flags else os.flags k })
  | refuses e ↦ failed (record (called os) { errno = e })
]

abbrev pub remove : ℕ → List ℕ → List ℕ
remove k [] = []
remove k (i ∷ is) = let rest = remove k is in if i == k then is else i ∷ rest

abbrev pub count : ℕ → List ℕ → ℕ
count k [] = 0
count k (i ∷ is) = (if i == k then 1 else 0) + count k is

-- ::close
abbrev pub sys_close : ℕ → Os → Os
sys_close fd os = record os {
  fds = remove fd os.fds;
  wrong_closes = if count fd os.fds == 0 then suc os.wrong_closes else os.wrong_closes;
}
