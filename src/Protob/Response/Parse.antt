-- ===== src/Protob/Response/Parse.antt =====
-- The parsing loop ends on every stream.
use carrot_rpc.Prelude.{
  ℕ, zero, suc, ◌%◌, ◌<◌, ◌≡◌, ◌≢◌, inl, inr, ◌||◌, some, arith, Bytes, length, ◌==◌, Bool-cases,
  Option-cases,
}
use carrot_rpc.Protob.Wire.{Wire, Tag, IsWire}
use carrot_rpc.Protob.Response.{
  Response, Parsed, looping, handle_unusual, parse_status, parse_message, parse_id, parse_field,
  merge_partial_loop, merge_partial,
}

expect_tag_takes :
    (w : Wire) (l : IsWire w) (t : ℕ) (input rest : Bytes)
    → t ≢ 0
    → w.expect_tag t input ≡ some rest
    → length rest < length input
expect_tag_takes w l t input rest h e =
    (rw (l.expect_tag_sound t input rest e) at (l.tag_takes input)) h

module _ (w : Wire) (l : IsWire w) (again : Response → Bytes → Parsed) (bound : ℕ)
    (ends : (m : Response) (rest : Bytes) → length rest < bound → again m rest ≢ looping) where
  handle_unusual_ends :
      (tag : ℕ) (m : Response) (input : Bytes)
      → (tag ≢ 0 → length input < bound)
      → handle_unusual w again tag m input ≢ looping
  unfolding handle_unusual
  handle_unusual_ends tag m input h = elim (Bool-cases (tag == 0 || tag % 8 == 4)) [
    | inl over ↦ rw over (λ e. cc)
    | inr more ↦ elim (Option-cases (w.skip_field tag input)) [
      | inl e ↦ rw (more, e) (λ e. cc)
      | inr ((u, rest), e) ↦
          rw (more, e)
            (ends _ rest (omega (arith, l.skip_takes tag input rest u e, h (ground (arith, more)))))
    ]
  ]

  parse_message_ends :
      (m : Response) (input : Bytes)
      → length input < bound
      → parse_message w again m input ≢ looping
  unfolding parse_message
  parse_message_ends m input h = elim (Option-cases (w.read_string input)) [
    | inl e ↦ rw (e, parse_message) (λ e. cc)
    | inr ((s, rest), e) ↦ elim (Bool-cases (w.expect_at_end rest)) [
      | inl over ↦ rw (e, parse_message, over) (λ e. cc)
      | inr more ↦
          rw (e, parse_message, more) (ends _ rest (omega (arith, l.string_takes input rest s e)))
    ]
  ]

  parse_status_ends :
      (m : Response) (input : Bytes) → length input < bound → parse_status w again m input ≢ looping
  unfolding parse_status
  parse_status_ends m input h = elim (Option-cases (w.read_enum input)) [
    | inl e ↦ rw (e, parse_status) (λ e. cc)
    | inr ((v, rest), e) ↦ elim (Option-cases (w.expect_tag 26 rest)) [
      | inl e' ↦ rw (e, parse_status, e') (ends _ rest (omega (arith, l.enum_takes input rest v e)))
      | inr (rest', e') ↦
          rw (e, parse_status, e')
            (parse_message_ends _ rest' (
              omega (
                arith,
                l.enum_takes input rest v e,
                expect_tag_takes w l 26 rest rest' (λ z. omega arith) e',
              )))
    ]
  ]

  parse_id_ends :
      (m : Response) (input : Bytes) → length input < bound → parse_id w again m input ≢ looping
  unfolding parse_id
  parse_id_ends m input h = elim (Option-cases (w.read_uint64 input)) [
    | inl e ↦ rw (e, parse_id) (λ e. cc)
    | inr ((v, rest), e) ↦ elim (Option-cases (w.expect_tag 16 rest)) [
      | inl e' ↦ rw (e, parse_id, e') (ends _ rest (omega (arith, l.uint64_takes input rest v e)))
      | inr (rest', e') ↦
          rw (e, parse_id, e')
            (parse_status_ends _ rest' (
              omega (
                arith,
                l.uint64_takes input rest v e,
                expect_tag_takes w l 16 rest rest' (λ z. omega arith) e',
              )))
    ]
  ]

  parse_field_ends :
      (t : Tag) (m : Response)
      → (t.tag ≢ 0 → length t.rest < bound)
      → parse_field w again t m ≢ looping
  unfolding parse_field
  parse_field_ends t m h = ground (
    arith,
    handle_unusual_ends t.tag m t.rest h,
    parse_id_ends m t.rest,
    parse_status_ends m t.rest,
    parse_message_ends m t.rest,
  )

merge_partial_loop_ends :
    (w : Wire) (l : IsWire w) (fuel : ℕ) (m : Response) (input : Bytes)
    → length input < fuel
    → merge_partial_loop w fuel m input ≢ looping
unfolding merge_partial_loop
merge_partial_loop_ends w l zero m input h = absurd (omega arith)
merge_partial_loop_ends w l (suc fuel) m input h =
    parse_field_ends w l (merge_partial_loop w fuel) fuel (merge_partial_loop_ends w l fuel)
      (w.read_tag input) m (λ nonzero. omega (arith, l.tag_takes input nonzero))

-- MergePartialFromCodedStream returns on every stream, well formed or not: each round takes a tag off the
-- stream, and ends the loop where there is none.
pub response_parse_ends :
    (w : Wire) → IsWire w → (m : Response) (input : Bytes) → merge_partial w m input ≢ looping
unfolding merge_partial
response_parse_ends w l m input =
    merge_partial_loop_ends w l (suc (suc (suc (suc (length input))))) m input (omega arith)
