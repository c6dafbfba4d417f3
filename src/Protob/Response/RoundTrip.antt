-- ===== src/Protob/Response/RoundTrip.antt =====
-- A Response is read back from what it was written to.
use carrot_rpc.Prelude.{
  ℕ, suc, ◌+◌, ◌<◌, ◌≡◌, ap, ◌∙◌, inl, inr, some, [], ◌++◌, arith, Bytes, length, length-append,
  Bool-cases, if◌then◌else◌, ◌^◌,
}
use carrot_rpc.Protob.Status.{to_int}
use carrot_rpc.Protob.Wire.{Wire, IsWire}
use carrot_rpc.Protob.Response.{
  Response, success, new_response, parse_message, parse_status, merge_partial_loop, merge_partial,
  serialize, byte_size, Fits,
}
use carrot_rpc.Protob.Response.Fields.{
  id_bytes, status_bytes, message_bytes, add_id, add_status, add_message, to_int-lt, at_end,
  expect_nothing, after_tag, message_round, status_after_tag, status_round, id_round, expect_value,
}

module _ (w : Wire) (l : IsWire w) (m : Response) (f : Fits m) where
  -- The message, if there is one, and the end of the stream.
  message_tail :
      (fuel : ℕ) (x : Response)
      → merge_partial_loop w (suc (suc fuel)) x (message_bytes w m ++ [])
        ≡ success (add_message m x) []
  unfolding message_bytes
  message_tail fuel x = elim (Bool-cases m.has_message) [
    | inl s ↦ rw s (message_round w l fuel x m.message f.short)
    | inr s ↦ rw s (at_end w l (suc fuel) x)
  ]

  message_tail_tagged :
      (fuel : ℕ) (x : Response) (rest' : Bytes)
      → w.expect_tag 26 (message_bytes w m ++ []) ≡ some rest'
      → parse_message w (merge_partial_loop w (suc fuel)) x rest' ≡ success (add_message m x) []
  unfolding message_bytes
  message_tail_tagged fuel x rest' e = elim (Bool-cases m.has_message) [
    | inl s ↦ rw s (
        after_tag w l fuel x m.message rest' (
          expect_value w l w.read_string 26 m.message [] _ rest'
            (l.string_back 3 m.message [] (omega arith) f.short) (rw s at e)))
    | inr s ↦ absurd (expect_nothing w l 26 rest' (λ z. omega arith) (rw s at e))
  ]

  -- The status, if there is one, and what follows it.
  status_tail :
      (fuel : ℕ) (x : Response)
      → merge_partial_loop w
          (suc (suc (suc fuel)))
          x
          (status_bytes w m ++ (message_bytes w m ++ []))
        ≡ success (add_message m (add_status m x)) []
  unfolding status_bytes
  status_tail fuel x = elim (Bool-cases m.has_status) [
    | inl s ↦ simp s (
        status_round w l (suc (suc fuel)) x m.status _ _ (message_tail fuel _)
          (message_tail_tagged (suc fuel) _))
    | inr s ↦ simp s (message_tail (suc fuel) x)
  ]

  not_a_status : (rest' : Bytes) → w.expect_tag 16 (message_bytes w m ++ []) ≡ some rest' → ⊥
  unfolding message_bytes
  not_a_status rest' e = elim (Bool-cases m.has_message) [
    | inl s ↦
        let (body, t, r) = l.string_back 3 m.message [] (omega arith) f.short in
        ground
          (arith, t, l.expect_tag_sound 16 (w.write_string 3 m.message ++ []) rest' (rw s at e))
    | inr s ↦ expect_nothing w l 16 rest' (λ z. omega arith) (rw s at e)
  ]

  status_tail_tagged :
      (fuel : ℕ) (x : Response) (rest' : Bytes)
      → w.expect_tag 16 (status_bytes w m ++ (message_bytes w m ++ [])) ≡ some rest'
      → parse_status w (merge_partial_loop w (suc (suc fuel))) x rest'
        ≡ success (add_message m (add_status m x)) []
  unfolding status_bytes
  status_tail_tagged fuel x rest' e = elim (Bool-cases m.has_status) [
    | inl s ↦ simp s (
        status_after_tag w l (suc (suc fuel)) x m.status rest' (message_bytes w m ++ []) _
          (expect_value w l w.read_enum 16 (to_int m.status) _ _ rest'
            (l.enum_back 2 (to_int m.status) _ (omega arith) (to_int-lt m.status)) (simp s at e))
          (message_tail fuel _) (message_tail_tagged (suc fuel) _))
    | inr s ↦ absurd (not_a_status rest' (simp s at e))
  ]

  whole_stream :
      (fuel : ℕ) (x : Response)
      → merge_partial_loop w
          (suc (suc (suc (suc fuel))))
          x
          (id_bytes w m ++ (status_bytes w m ++ (message_bytes w m ++ [])))
        ≡ success (add_message m (add_status m (add_id m x))) []
  unfolding id_bytes
  whole_stream fuel x = elim (Bool-cases m.has_id) [
    | inl s ↦ simp s (
        id_round w l (suc (suc (suc fuel))) x m.id _ _ f.id_is_u64 (status_tail fuel _)
          (status_tail_tagged (suc fuel) _))
    | inr s ↦ simp s (status_tail (suc fuel) x)
  ]

serialize-bytes :
    (w : Wire) (m : Response)
    → Fits m
    → serialize w m ≡ id_bytes w m ++ (status_bytes w m ++ (message_bytes w m ++ []))
unfolding serialize id_bytes status_bytes message_bytes
serialize-bytes w m f = simp f.known

rebuilt : (m : Response) → Fits m → add_message m (add_status m (add_id m new_response)) ≡ m
rebuilt m f = ground arith

loop-serialize :
    (w : Wire) (l : IsWire w) (m : Response) (f : Fits m) (fuel : ℕ)
    → merge_partial_loop w (suc (suc (suc (suc fuel)))) new_response (serialize w m) ≡ success m []
loop-serialize w l m f fuel =
    ap (merge_partial_loop w _ new_response) (serialize-bytes w m f)
    ∙ whole_stream w l m f fuel new_response
    ∙ ap (λ x. success x []) (rebuilt m f)

-- The bytes that SerializeWithCachedSizesToArray writes for a message with a uint64 id, a short
-- string and no unknown fields are read back to that message, whichever of its fields are set, and to the end.
pub response-roundtrip :
    (w : Wire)
    → IsWire w
    → (m : Response) → Fits m
    → merge_partial w new_response (serialize w m) ≡ success m []
unfolding merge_partial
response-roundtrip w l m f = loop-serialize w l m f (length (serialize w m))

module _ (w : Wire) (l : IsWire w) (m : Response) (f : Fits m) where
  length-id_bytes : length (id_bytes w m) ≡ (if m.has_id then 1 + w.uint64_size m.id else 0)
  unfolding id_bytes
  length-id_bytes = ground (arith, l.length-write_uint64 1 m.id (omega arith) f.id_is_u64)

  length-status_bytes :
      length (status_bytes w m) ≡ (if m.has_status then 1 + w.enum_size (to_int m.status) else 0)
  unfolding status_bytes
  length-status_bytes =
      ground (arith, l.length-write_enum 2 (to_int m.status) (omega arith) (to_int-lt m.status))

  length-message_bytes :
      length (message_bytes w m) ≡ (if m.has_message then 1 + w.string_size m.message else 0)
  unfolding message_bytes
  length-message_bytes = ground (arith, l.length-write_string 3 m.message (omega arith))

  -- ByteSize is the number of bytes that are written.
  pub length-serialize : length (serialize w m) ≡ byte_size w m
  unfolding byte_size
  length-serialize =
      ap length (serialize-bytes w m f)
      ∙ simp (length-append, length-id_bytes, length-status_bytes, length-message_bytes, f.known)
          (ground arith)

  pub byte_size-lt : byte_size w m < 2 ^ 31
  unfolding byte_size
  byte_size-lt = ground (
    arith,
    l.uint64_size_le m.id f.id_is_u64,
    l.enum_size_le (to_int m.status) (to_int-lt m.status),
    l.string_size_le m.message f.short,
    f.known,
  )
