-- ===== src/Io/Examples.antt =====
-- Runs of read_n and write_n on concrete sockets.
use carrot_rpc.Prelude.{◌≡◌, refl, [], ◌∷◌, arith}
use carrot_rpc.Io.{
  serves, fails, Socket, waiting, completed, read_n, write_n, read_loop, write_loop,
}
use carrot_rpc.Io.Reading.{Moves, Gives, read_n-Moves, read_n-Gives}
use carrot_rpc.Io.Writing.{Sends, Succeeds, write_n-Sends, write_n-Succeeds}
use carrot_rpc.Io.Stale.{read_n_spins}

-- Five bytes that come in chunks of two and one, with an interruption between them.
abbrev chunks : Socket
chunks = record {
  input = 1 ∷ 2 ∷ 3 ∷ 4 ∷ 5 ∷ [];
  output = [];
  turns = serves 1 ∷ fails 4 ∷ serves 0 ∷ serves 6 ∷ serves 6 ∷ [];
  errno = 0;
}

-- A stream of two bytes, and a call that is interrupted before its end is seen.
abbrev interrupted : Socket
interrupted = record {
  input = 1 ∷ 2 ∷ [];
  output = [];
  turns = serves 7 ∷ serves 7 ∷ serves 7 ∷ [];
  errno = 4;
}

abbrev quiet : Socket
quiet = record {
  input = 1 ∷ 2 ∷ [];
  output = [];
  turns = serves 7 ∷ serves 7 ∷ serves 7 ∷ [];
  errno = 0;
}

read_chunks :
    read_n chunks 4
    ≡ completed
        (1 ∷ 2 ∷ 3 ∷ 4 ∷ [])
        (record { input = 5 ∷ []; output = []; turns = serves 6 ∷ []; errno = 4 })
unfolding read_n read_loop
read_chunks = refl

write_chunks :
    write_n chunks (7 ∷ 8 ∷ 9 ∷ [])
    ≡ completed tt (record {
      input = 1 ∷ 2 ∷ 3 ∷ 4 ∷ 5 ∷ [];
      output = 7 ∷ 8 ∷ 9 ∷ [];
      turns = serves 6 ∷ serves 6 ∷ [];
      errno = 4;
    })
unfolding write_n write_loop
write_chunks = refl

read_n-Moves_example : Moves (1 ∷ 2 ∷ 3 ∷ 4 ∷ 5 ∷ []) 4 (read_n chunks 4)
read_n-Moves_example = read_n-Moves chunks 4

read_n-Gives_example : Gives (1 ∷ 2 ∷ 3 ∷ 4 ∷ []) (5 ∷ []) [] 4 4 (read_n chunks 4)
read_n-Gives_example = read_n-Gives chunks 4 (refl, tt) (omega arith) (omega arith)

write_n-Sends_example :
    Sends (1 ∷ 2 ∷ 3 ∷ 4 ∷ 5 ∷ []) [] (7 ∷ 8 ∷ 9 ∷ []) (write_n chunks (7 ∷ 8 ∷ 9 ∷ []))
write_n-Sends_example = write_n-Sends chunks (7 ∷ 8 ∷ 9 ∷ [])

write_n-Succeeds_example : Succeeds 1 (write_n chunks (7 ∷ 8 ∷ 9 ∷ []))
write_n-Succeeds_example = write_n-Succeeds chunks (7 ∷ 8 ∷ 9 ∷ []) (refl, tt) (omega arith)

read_n_spins_example : read_n interrupted 4 ≡ waiting
read_n_spins_example = read_n_spins interrupted 4 refl tt (omega arith)
