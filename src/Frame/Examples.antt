-- ===== src/Frame/Examples.antt =====
-- A frame on a concrete socket.
use carrot_rpc.Prelude.{refl, [], ◌∷◌, arith}
use carrot_rpc.Packet.{Packet}
use carrot_rpc.Io.{Socket, serves}
use carrot_rpc.Frame.{frame, read_header}
use carrot_rpc.Frame.Header.{Got, read_header-Got}

abbrev sample : Packet
sample = record { rpc_len = 258; req_len = 1; resp_len = 0 }

abbrev connection : Socket
connection = record {
  input = frame sample (9 ∷ 8 ∷ []);
  output = [];
  turns =
      serves 9
      ∷ serves 0
      ∷ serves 9
      ∷ serves 9
      ∷ serves 9
      ∷ serves 9
      ∷ serves 9
      ∷ serves 9
      ∷ serves 9
      ∷ serves 9
      ∷ serves 9
      ∷ serves 9
      ∷ [];
  errno = 0;
}

read_header-Got_example : Got connection sample 12 (9 ∷ 8 ∷ []) (read_header connection)
read_header-Got_example =
    read_header-Got connection sample (9 ∷ 8 ∷ [])
      (record { rpc = omega arith; req = omega arith; resp = omega arith }) refl tt (omega arith)
