-- ===== src/Sockets/Balance.antt =====
-- Which descriptors the functions that create sockets leave open.
use carrot_rpc.Prelude.{
  ℕ, suc, ◌≡◌, ◌≢◌, refl, ◌⊎◌, inl, inr, true, Option, none, some, List, [], ◌∷◌, ◌==◌,
  if◌then◌else◌, arith, Bool-cases,
}
use Prim.Native.Nat.{bit_or}
use carrot_rpc.Os.{Os, Ran, ran, failed, corrupted, called, sys_close}
use carrot_rpc.Os.Descriptors.{Answer-cases, SameDescriptors, OneMore, sys_close-OneMore}
use carrot_rpc.Sockets.{
  AddrInfo, connect_loop, connect_to, o_nonblock, af_inet, set_fd_nonblocking,
  create_nonblocking_tcp_socket, create_server_tcp_socket, open_channel, close_channel,
}

unchanged : (os : Os) → SameDescriptors os os
unchanged os = record { counts = λ k. refl; wrong = refl }

refused : (os : Os) (e : ℕ) → SameDescriptors os (record (called os) { errno = e })
refused os e = record { counts = λ k. refl; wrong = refl }

-- A connected socket is the only descriptor that was opened; without one, none was.
abbrev pub Balanced : Os → Option ℕ × Os → Type 0
Balanced os (s, os') = elim s [ none ↦ SameDescriptors os os' | some fd ↦ OneMore fd os os' ]

step-Balanced :
    (res : AddrInfo) (next : List AddrInfo) (s : Option ℕ) (os os' : Os)
    → SameDescriptors os os'
    → ((os'' : Os) → SameDescriptors os os'' → Balanced os (connect_loop next none os''))
    → Balanced os (connect_loop (res ∷ next) s os')
unfolding connect_loop
step-Balanced res next s os os' same rest = elim (Answer-cases (os'.answers os'.calls)) [
  | inr (e, r) ↦
      rw (r, connect_loop)
        (rest (record (called os') { errno = e })
          (record { counts = same.counts; wrong = same.wrong }))
  | inl (fd, r) ↦ elim (Answer-cases (os'.answers (suc os'.calls))) [
    | inl (n, r') ↦ rw (r, r', connect_loop) (opened fd os'.errno)
    | inr (e, r') ↦
        rw (r, r', connect_loop)
          (rest (sys_close fd (with_socket fd e))
            (sys_close-OneMore fd os (with_socket fd e) (opened fd e)))
  ]
]
  where
    with_socket : ℕ → ℕ → Os
    with_socket fd e = record os' { fds = fd ∷ os'.fds; calls = suc (suc os'.calls); errno = e }

    opened : (fd e : ℕ) → OneMore fd os (with_socket fd e)
    opened fd e = record { counts = λ k. omega (arith, same.counts k); wrong = same.wrong }

loop-Balanced :
    (next : List AddrInfo) (os os' : Os)
    → SameDescriptors os os'
    → Balanced os (connect_loop next none os')
unfolding connect_loop
loop-Balanced [] os os' same = same
loop-Balanced (res ∷ next) os os' same =
    step-Balanced res next none os os' same λ os'' same'. loop-Balanced next os os'' same'

-- Whatever the system answers: unless getaddrinfo succeeds with no address, connect_to leaves one more descriptor
-- open, the one that it returns, or none if it returns -1, and it closes no number that is not open.
pub connect_to-Balanced :
    (res0 : Option (List AddrInfo)) (os : Os) → res0 ≢ some [] → Balanced os (connect_to res0 os)
unfolding connect_to
connect_to-Balanced none os h = unchanged os
connect_to-Balanced (some []) os h = absurd (h refl)
connect_to-Balanced (some (res ∷ next)) os h =
    step-Balanced res next (some 1) os os (unchanged os) λ os' same. loop-Balanced next os os' same

-- A channel that was opened and is closed again leaves the descriptors as they were, and so does one that could not be
-- opened.
abbrev pub Closes : Os → Ran ℕ → Type 0
Closes os (ran sock os') = SameDescriptors os (close_channel (some sock) os')
Closes os (failed os') = SameDescriptors os os'
Closes os corrupted = ⊥

-- A blocking channel that is built and destroyed leaves the descriptors of the process as they were, and so does one
-- whose constructor throws, whatever the system answers, unless getaddrinfo succeeds with no address.
pub open_channel-Closes :
    (res0 : Option (List AddrInfo)) (os : Os) → res0 ≢ some [] → Closes os (open_channel res0 os)
unfolding open_channel close_channel
open_channel-Closes res0 os h = go (connect_to res0 os) (connect_to-Balanced res0 os h)
  where
    go :
        (r : Option ℕ × Os)
        → Balanced os r
        → Closes os (elim r.0 [ none ↦ failed r.1 | some sock ↦ ran sock r.1 ])
    go (none, os') b = b
    go (some sock, os') b = sys_close-OneMore sock os os' b

-- A socket with O_NONBLOCK is the only descriptor that was opened; without one, none was.
abbrev pub NonBlocking : Os → Ran ℕ → Type 0
NonBlocking os (ran sock os') =
    OneMore sock os os' × ((flags : ℕ) × (os'.flags sock ≡ bit_or flags o_nonblock))
NonBlocking os (failed os') = SameDescriptors os os'
NonBlocking os corrupted = ⊥

-- Whatever the system answers: create_nonblocking_tcp_socket leaves one more descriptor open, the one that it
-- returns, with O_NONBLOCK among its flags, or none if it returns -1.
pub create_nonblocking_tcp_socket-NonBlocking :
    (os : Os) → NonBlocking os (create_nonblocking_tcp_socket os)
unfolding create_nonblocking_tcp_socket set_fd_nonblocking
create_nonblocking_tcp_socket-NonBlocking os = elim (Answer-cases (os.answers os.calls)) [
  | inr (e, r) ↦ rw (r, create_nonblocking_tcp_socket) (refused os e)
  | inl (fd, r) ↦ elim (Answer-cases (os.answers (suc os.calls))) [
    | inr (e, r') ↦
        rw (r, r', create_nonblocking_tcp_socket, set_fd_nonblocking)
          (sys_close-OneMore fd os (opened fd (suc (suc os.calls)) os.flags e)
            (one_more fd (suc (suc os.calls)) os.flags e))
    | inl (flags, r') ↦ elim (Answer-cases (os.answers (suc (suc os.calls)))) [
      | inr (e, r'') ↦
          rw (r, r', r'', create_nonblocking_tcp_socket, set_fd_nonblocking)
            (sys_close-OneMore fd os (opened fd (suc (suc (suc os.calls))) os.flags e)
              (one_more fd (suc (suc (suc os.calls))) os.flags e))
      | inl (n, r'') ↦
          rw (r, r', r'', create_nonblocking_tcp_socket, set_fd_nonblocking)
            (
              one_more fd (suc (suc (suc os.calls))) (set fd (bit_or flags o_nonblock)) os.errno,
              (flags, set-same fd (bit_or flags o_nonblock)),
            )
    ]
  ]
]
  where
    opened : ℕ → ℕ → (ℕ → ℕ) → ℕ → Os
    opened fd n flags e = record os { fds = fd ∷ os.fds; calls = n; flags = flags; errno = e }

    one_more : (fd n : ℕ) (flags : ℕ → ℕ) (e : ℕ) → OneMore fd os (opened fd n flags e)
    one_more fd n flags e = record { counts = λ k. refl; wrong = refl }

    set : ℕ → ℕ → ℕ → ℕ
    set fd flags k = if k == fd then flags else os.flags k

    set-same : (fd flags : ℕ) → set fd flags fd ≡ flags
    set-same fd flags = ground arith

-- A listening socket is the only descriptor that was opened; a failure may leave one open; an object is
-- overrun with another family than AF_INET only.
abbrev pub Listens : ℕ → Os → Ran ℕ → Type 0
Listens family os (ran sock os') = (family ≡ af_inet) × OneMore sock os os'
Listens family os (failed os') = SameDescriptors os os' ⊎ ((sock : ℕ) × OneMore sock os os')
Listens family os corrupted = family ≢ af_inet

-- Whatever the system answers: create_server_tcp_socket returns a socket, the one more descriptor that is open,
-- with AF_INET only; where it fails with -1 at most one more descriptor is open; and it writes beyond
-- its sockaddr with another family than AF_INET only.
pub create_server_tcp_socket-Listens :
    (family : ℕ) (os : Os) → Listens family os (create_server_tcp_socket family os)
unfolding create_server_tcp_socket
create_server_tcp_socket-Listens family os = elim (Answer-cases (os.answers os.calls)) [
  | inr (e, r) ↦ rw (r, create_server_tcp_socket) (inl (refused os e))
  | inl (fd, r) ↦ elim (Bool-cases (family == af_inet)) [
    | inr other ↦ rw (r, other, create_server_tcp_socket) (λ same. cc (other, is_inet same))
    | inl inet ↦ elim (Answer-cases (os.answers (suc os.calls))) [
      | inr (e, r') ↦
          rw (r, inet, r', create_server_tcp_socket) (inr (fd, one_more fd (suc (suc os.calls)) e))
      | inl (m, r') ↦ elim (Answer-cases (os.answers (suc (suc os.calls)))) [
        | inr (e, r'') ↦
            rw (r, inet, r', r'', create_server_tcp_socket)
              (inr (fd, one_more fd (suc (suc (suc os.calls))) e))
        | inl (n, r'') ↦
            rw (r, inet, r', r'', create_server_tcp_socket)
              (ground arith, one_more fd (suc (suc (suc os.calls))) os.errno)
      ]
    ]
  ]
]
  where
    one_more : (fd n e : ℕ) → OneMore fd os (record os { fds = fd ∷ os.fds; calls = n; errno = e })
    one_more fd n e = record { counts = λ k. refl; wrong = refl }

    is_inet : family ≡ af_inet → (family == af_inet) ≡ true
    is_inet same = ground arith
