-- ===== src/Frame/Header.antt =====
-- The header that is read is the header that was sent.
use mathlib.Core.Path.{subst₂}
use carrot_rpc.Prelude.{
  ℕ, ◌+◌, ◌≤◌, ◌≡◌, refl, ap, ◌∙◌, arith, ◌++◌, Bytes, length, take, drop, take-append, drop-append,
  length-append,
}
use carrot_rpc.Packet.{
  Packet, IsU32, FieldsAreU32, ntohl, htonl, store_u32, convert_to_network_order, header_image,
}
use carrot_rpc.Packet.Order.{ntohl-htonl, load-store, htonl-IsU32}
use carrot_rpc.Io.{Socket, Outcome, completed, broken, waiting, read_n, IsHarmless, count_serves}
use carrot_rpc.Io.Reading.{Gives, read_n-Gives}
use carrot_rpc.Frame.{Io, ◌>>=◌, pure, receive, word, read_header, frame}

-- A call that returned `a`, took `n` bytes off the input and left `rest` of it, nothing written, with harmless turns.
pub record Got {A : Type 0} (s : Socket) (a : A) (n : ℕ) (rest : Bytes) (r : Outcome A)
    : Type 0 where
  pub after : Socket
  pub returned : r ≡ completed a after
  pub input : after.input ≡ rest
  pub output : after.output ≡ s.output
  pub harmless : IsHarmless after.turns
  pub turns : count_serves s.turns ≤ count_serves after.turns + n

Gives-Got :
    (s : Socket) (got rest : Bytes) (n : ℕ) (r : Outcome Bytes)
    → Gives got rest s.output n (count_serves s.turns) r
    → Got s got n rest r
Gives-Got s got rest n (completed b s') (e, i, o, h, c) = record {
  after = s';
  returned = ap (λ x. completed x s') e;
  input = i;
  output = o;
  harmless = h;
  turns = c;
}
Gives-Got s got rest n (broken s') g = absurd g
Gives-Got s got rest n waiting g = absurd g

pub receive-Got :
    (s : Socket) (xs rest : Bytes)
    → s.input ≡ xs ++ rest
    → IsHarmless s.turns
    → length xs ≤ count_serves s.turns
    → Got s xs (length xs) rest (receive (length xs) s)
receive-Got s xs rest e h c = Gives-Got s xs rest (length xs) _ (
    subst₂
      (λ got left.
        Gives got left s.output (length xs) (count_serves s.turns) (read_n s (length xs)))
      (ap (take (length xs)) e ∙ take-append xs rest)
      (ap (drop (length xs)) e ∙ drop-append xs rest)
      (read_n-Gives s (length xs) h c (omega (arith, ap length e, length-append xs rest))))

-- Two actions in a row.
pub >>=-Got :
    {A B : Type 0} (s : Socket) (m : Io A) (f : A → Io B) (a : A) (b : B) (n k : ℕ)
    (mid rest : Bytes)
    → (g : Got s a n mid (m s)) → Got g.after b k rest (f a g.after)
    → Got s b (n + k) rest ((m >>= f) s)
>>=-Got s m f a b n k mid rest g t = record {
  after = t.after;
  returned = rw (g.returned, ◌>>=◌) t.returned;
  input = t.input;
  output = t.output ∙ g.output;
  harmless = t.harmless;
  turns = omega (arith, g.turns, t.turns);
}

-- The four bytes of a length on the wire.
abbrev pub wire_word : ℕ → Bytes
wire_word x = store_u32 (htonl x)

pub word-wire : (x : ℕ) → IsU32 x → ntohl (word (wire_word x)) ≡ x
unfolding store_u32
word-wire x h = ap ntohl (load-store (htonl x) (htonl-IsU32 x)) ∙ ntohl-htonl x h

pub pure-Got :
    {A : Type 0} (s : Socket) (a b : A) (rest : Bytes)
    → a ≡ b
    → s.input ≡ rest
    → IsHarmless s.turns
    → Got s b 0 rest (pure a s)
pure-Got s a b rest e i h = record {
  after = s;
  returned = ap (λ x. completed x s) e;
  input = i;
  output = refl;
  harmless = h;
  turns = omega arith;
}

words-eq :
    (p : Packet)
    → FieldsAreU32 p
    → record {
      rpc_len = ntohl (word (wire_word p.rpc_len));
      req_len = ntohl (word (wire_word p.req_len));
      resp_len = ntohl (word (wire_word p.resp_len));
    }
      ≡ p
words-eq p v = rw (word-wire _ v.rpc, word-wire _ v.req, word-wire _ v.resp)

-- From a stream that begins with the frame of a packet with uint32_t lengths, through a kernel that
-- interrupts at worst and serves twelve calls at least, the header comes back as it was sent, read
-- in any chunks; the payload is left in the stream, nothing is written, and no more than twelve
-- served calls are used up.
pub read_header-Got :
    (s : Socket) (p : Packet) (payload : Bytes)
    → FieldsAreU32 p
    → s.input ≡ frame p payload
    → IsHarmless s.turns
    → 12 ≤ count_serves s.turns
    → Got s p 12 payload (read_header s)
unfolding read_header header_image convert_to_network_order store_u32
read_header-Got s p payload v e h c =
    >>=-Got s (receive 4) _ (wire_word p.rpc_len) p 4 8 _ payload first (
      >>=-Got first.after (receive 4) _ (wire_word p.req_len) p 4 4 _ payload second (
        >>=-Got second.after (receive 4) _ (wire_word p.resp_len) p 4 0 payload payload third
          (pure-Got third.after _ p payload (words-eq p v) third.input third.harmless)))
  where
    first :
        Got s
          (wire_word p.rpc_len)
          4
          (wire_word p.req_len ++ (wire_word p.resp_len ++ payload))
          (receive 4 s)
    first = receive-Got s (wire_word p.rpc_len) _ e h (omega arith)

    second :
        Got first.after
          (wire_word p.req_len)
          4
          (wire_word p.resp_len ++ payload)
          (receive 4 first.after)
    second =
        receive-Got first.after (wire_word p.req_len) _ first.input first.harmless
          (omega (arith, first.turns))

    third : Got second.after (wire_word p.resp_len) 4 payload (receive 4 second.after)
    third =
        receive-Got second.after (wire_word p.resp_len) _ second.input second.harmless
          (omega (arith, first.turns, second.turns))
