-- ===== src/Server/Threaded/Accepting.antt =====
-- CarrotThreadedServer::Run of src/server/carrot_threaded_server.cpp: the loop that accepts. A thread is known by the
-- descriptor that it was given; what it does is handle_client.
use carrot_rpc.Prelude.{ℕ, zero, suc, ◌+◌, ◌≡◌, refl, inl, inr, List, ◌∷◌, arith}
use carrot_rpc.Os.{grants, refuses, Os, called, count}
use carrot_rpc.Os.Descriptors.{Answer-cases}

-- `threads` are the descriptors of the threads that were started, the last first.
pub record ThreadedServer : Type 0 where
  pub os : Os
  pub threads : List ℕ

-- The number is how often the loop finds the server not stopped; an error of accept ends the loop as well.
unfoldable pub run : ℕ → ThreadedServer → ThreadedServer
run zero s = s
run (suc rounds) s = elim (s.os.answers s.os.calls) [
  | refuses e ↦ record s { os = record (called s.os) { errno = e } }
  | grants fd ↦
      run rounds
        (record { os = record (called s.os) { fds = fd ∷ s.os.fds }; threads = fd ∷ s.threads })
]

-- However often the loop runs and whatever accept answers, each descriptor that was opened meanwhile was given to
-- exactly one thread, and none was closed in vain.
pub run-threads :
    (rounds : ℕ) (s : ThreadedServer) (k : ℕ)
    → (count k (run rounds s).os.fds + count k s.threads
        ≡ count k (run rounds s).threads + count k s.os.fds)
      × ((run rounds s).os.wrong_closes ≡ s.os.wrong_closes)
unfolding run
run-threads zero s k = (omega arith, refl)
run-threads (suc rounds) s k = elim (Answer-cases (s.os.answers s.os.calls)) [
  | inr (e, r) ↦ rw (r, run) (omega arith, refl)
  | inl (fd, r) ↦
      let (counts, wrong) =
        run-threads rounds
          (record { os = record (called s.os) { fds = fd ∷ s.os.fds }; threads = fd ∷ s.threads })
          k in
      rw (r, run) (omega (arith, counts), wrong)
]
