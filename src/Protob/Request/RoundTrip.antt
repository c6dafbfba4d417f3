-- ===== src/Protob/Request/RoundTrip.antt =====
-- A Request is read back from what it was written to.
use mathlib.Core.List.{append-nil}
use carrot_rpc.Prelude.{
  ℕ, suc, ◌+◌, ◌<◌, ◌≡◌, ap, ◌∙◌, inl, inr, true, false, some, [], ◌++◌, arith, Bytes, length,
  length-append, Bool-cases, Option-cases, ◌^◌,
}
use carrot_rpc.Protob.Wire.{Wire, IsWire}
use carrot_rpc.Protob.Request.{
  Request, Parsed, success, new_request, set_id, set_method_identity, parse_method_identity,
  parse_id, merge_partial_loop, merge_partial, serialize, byte_size, Fits,
}

module _ (w : Wire) (l : IsWire w) where
  -- The stream is used up.
  at_end : (fuel : ℕ) (m : Request) → merge_partial_loop w (suc fuel) m [] ≡ success m []
  unfolding merge_partial_loop
  at_end fuel m = rw l.tag_at_end

  -- The string is the last field, with its tag taken already.
  after_tag :
      (fuel : ℕ) (m : Request) (s body : Bytes)
      → w.read_string body ≡ some (s, [])
      → parse_method_identity w (merge_partial_loop w (suc fuel)) m body
        ≡ success (set_method_identity m s) []
  unfolding parse_method_identity
  after_tag fuel m s body e = elim (Bool-cases (w.expect_at_end [])) [
    | inl over ↦ rw (e, parse_method_identity, over)
    | inr more ↦ rw (e, parse_method_identity, more) (at_end fuel _)
  ]

  string_round :
      (fuel : ℕ) (m : Request) (s : Bytes)
      → length s < 2 ^ 30
      → merge_partial_loop w (suc (suc fuel)) m (w.write_string 2 s ++ [])
        ≡ success (set_method_identity m s) []
  unfolding merge_partial_loop
  string_round fuel m s h =
      let (body, t, r) = l.string_back 2 s [] (omega arith) h in rw t (after_tag fuel m s body r)

  id_round :
      (fuel : ℕ) (m : Request) (v : ℕ) (rest : Bytes) (p : Parsed)
      → v < 2 ^ 64
      → merge_partial_loop w fuel (set_id m v) rest ≡ p
      → ((rest' : Bytes)
          → w.expect_tag 18 rest ≡ some rest'
          → parse_method_identity w (merge_partial_loop w fuel) (set_id m v) rest' ≡ p)
      → merge_partial_loop w (suc fuel) m (w.write_uint64 1 v ++ rest) ≡ p
  unfolding merge_partial_loop
  id_round fuel m v rest p h plain short =
      let (body, t, r) = l.uint64_back 1 v rest (omega arith) h in
      elim (Option-cases (w.expect_tag 18 rest)) [
        | inl e ↦ rw (t, r, parse_id, e) plain
        | inr (rest', e) ↦ rw (t, r, parse_id, e) (short rest' e)
      ]

  -- No tag follows at the end of the stream.
  expect_nothing : (rest : Bytes) → w.expect_tag 18 [] ≡ some rest → ⊥
  expect_nothing rest e = cc (l.expect_tag_sound 18 [] rest e, l.tag_at_end)

  -- The tag that ExpectTag took is that of the string behind.
  expect_string :
      (s rest : Bytes)
      → length s < 2 ^ 30
      → w.expect_tag 18 (w.write_string 2 s ++ []) ≡ some rest
      → w.read_string rest ≡ some (s, [])
  expect_string s rest h e =
      let (body, t, r) = l.string_back 2 s [] (omega arith) h in
      let same : rest ≡ body = cc (l.expect_tag_sound 18 _ rest e, t) in rw same r

  -- The loop on the bytes of a message that sets both fields, one of them, or none.
  loop_both :
      (fuel v : ℕ) (s : Bytes)
      → v < 2 ^ 64
      → length s < 2 ^ 30
      → merge_partial_loop w
          (suc (suc (suc fuel)))
          new_request
          (w.write_uint64 1 v ++ (w.write_string 2 s ++ []))
        ≡ success (set_method_identity (set_id new_request v) s) []
  loop_both fuel v s hv hs =
      id_round (suc (suc fuel)) new_request v _ _ hv (string_round fuel _ s hs)
        λ rest e. after_tag (suc fuel) _ s rest (expect_string s rest hs e)

  loop_id :
      (fuel v : ℕ)
      → v < 2 ^ 64
      → merge_partial_loop w (suc (suc fuel)) new_request (w.write_uint64 1 v ++ [])
        ≡ success (set_id new_request v) []
  loop_id fuel v hv =
      id_round (suc fuel) new_request v [] _ hv (at_end fuel _)
        λ rest e. absurd (expect_nothing rest e)

-- What the bytes of a message are, and which message sets just those fields.
abbrev Writes : Wire → Request → Bytes → Request → Type 0
Writes w m bytes shape = (serialize w m ≡ bytes) × (shape ≡ m)

module _ (w : Wire) (m : Request) (f : Fits m) where
  Writes-both :
      m.has_id ≡ true
      → m.has_method_identity ≡ true
      → Writes w m
          (w.write_uint64 1 m.id ++ (w.write_string 2 m.method_identity ++ []))
          (set_method_identity (set_id new_request m.id) m.method_identity)
  unfolding serialize
  Writes-both i s = (simp (i, s, f.known), ground arith)

  Writes-id :
      m.has_id ≡ true
      → m.has_method_identity ≡ false
      → Writes w m (w.write_uint64 1 m.id ++ []) (set_id new_request m.id)
  unfolding serialize
  Writes-id i s = (simp (i, s, f.known), ground arith)

  Writes-string :
      m.has_id ≡ false
      → m.has_method_identity ≡ true
      → Writes w m
          (w.write_string 2 m.method_identity ++ [])
          (set_method_identity new_request m.method_identity)
  unfolding serialize
  Writes-string i s = (simp (i, s, f.known), ground arith)

  Writes-none : m.has_id ≡ false → m.has_method_identity ≡ false → Writes w m [] new_request
  unfolding serialize
  Writes-none i s = (simp (i, s, f.known), ground arith)

  by_shape :
      (fuel : ℕ) (bytes : Bytes) (shape : Request)
      → Writes w m bytes shape
      → merge_partial_loop w fuel new_request bytes ≡ success shape []
      → merge_partial_loop w fuel new_request (serialize w m) ≡ success m []
  by_shape fuel bytes shape (e, s) r =
      ap (merge_partial_loop w fuel new_request) e ∙ r ∙ ap (λ x. success x []) s

  loop-serialize :
      IsWire w
      → (fuel : ℕ)
      → merge_partial_loop w (suc (suc (suc fuel))) new_request (serialize w m) ≡ success m []
  loop-serialize l fuel = elim (Bool-cases m.has_id) [
    | inl i ↦ elim (Bool-cases m.has_method_identity) [
      | inl s ↦
          by_shape _ _ _ (Writes-both i s)
            (loop_both w l fuel m.id m.method_identity f.id_is_u64 f.short)
      | inr s ↦ by_shape _ _ _ (Writes-id i s) (loop_id w l (suc fuel) m.id f.id_is_u64)
    ]
    | inr i ↦ elim (Bool-cases m.has_method_identity) [
      | inl s ↦
          by_shape _ _ _ (Writes-string i s)
            (string_round w l (suc fuel) new_request m.method_identity f.short)
      | inr s ↦ by_shape _ _ _ (Writes-none i s) (at_end w l (suc (suc fuel)) new_request)
    ]
  ]

-- ByteSize is the number of bytes that are written.
pub length-serialize :
    (w : Wire) → IsWire w → (m : Request) → Fits m → length (serialize w m) ≡ byte_size w m
unfolding serialize byte_size
length-serialize w l m f = elim (Bool-cases m.has_id) [
  | inl i ↦ elim (Bool-cases m.has_method_identity) [
    | inl s ↦ simp (i, s, f.known, length-append, append-nil) (omega (arith, id_size, string_size))
    | inr s ↦ simp (i, s, f.known, append-nil) (omega (arith, id_size))
  ]
  | inr i ↦ elim (Bool-cases m.has_method_identity) [
    | inl s ↦ simp (i, s, f.known, append-nil) (omega (arith, string_size))
    | inr s ↦ simp (i, s, f.known)
  ]
]
  where
    id_size : length (w.write_uint64 1 m.id) ≡ 1 + w.uint64_size m.id
    id_size = l.length-write_uint64 1 m.id (omega arith) f.id_is_u64

    string_size : length (w.write_string 2 m.method_identity) ≡ 1 + w.string_size m.method_identity
    string_size = l.length-write_string 2 m.method_identity (omega arith)

pub byte_size-lt : (w : Wire) → IsWire w → (m : Request) → Fits m → byte_size w m < 2 ^ 31
unfolding byte_size
byte_size-lt w l m f =
    ground (
      arith,
      l.uint64_size_le m.id f.id_is_u64,
      l.string_size_le m.method_identity f.short,
      f.known,
    )

-- The bytes that SerializeWithCachedSizesToArray writes for a message with a uint64 id, a short
-- string and no unknown fields are read back to that message, whichever of its fields are set, and to the end.
pub request-roundtrip :
    (w : Wire)
    → IsWire w
    → (m : Request) → Fits m
    → merge_partial w new_request (serialize w m) ≡ success m []
unfolding merge_partial
request-roundtrip w l m f = loop-serialize w m f l (length (serialize w m))
