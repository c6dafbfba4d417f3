-- ===== src/Protob/Response/Fields.antt =====
-- What one field of a Response is written to, and the round of MergePartialFromCodedStream that reads it.
use carrot_rpc.Prelude.{
  ℕ, suc, ◌<◌, ◌≡◌, ◌≢◌, inl, inr, Option, some, [], ◌++◌, arith, Bytes, length, Bool-cases,
  Option-cases, if◌then◌else◌, ◌^◌,
}
use carrot_rpc.Protob.Status.{Status, to_int, of_int-to_int}
use carrot_rpc.Protob.Wire.{Wire, IsWire, ReadsBack}
use carrot_rpc.Protob.Response.{
  Response, Parsed, success, set_id, set_status, set_message, parse_message, parse_status, parse_id,
  merge_partial_loop,
}

-- The part of a stream that holds one field of `m`, and what reading it does to the message `x`.
module _ (w : Wire) (m : Response) where
  unfoldable pub id_bytes : Bytes
  id_bytes = if m.has_id then w.write_uint64 1 m.id else []

  unfoldable pub status_bytes : Bytes
  status_bytes = if m.has_status then w.write_enum 2 (to_int m.status) else []

  unfoldable pub message_bytes : Bytes
  message_bytes = if m.has_message then w.write_string 3 m.message else []

abbrev pub add_id : Response → Response → Response
add_id m x = if m.has_id then set_id x m.id else x

abbrev pub add_status : Response → Response → Response
add_status m x = if m.has_status then set_status x m.status else x

abbrev pub add_message : Response → Response → Response
add_message m x = if m.has_message then set_message x m.message else x

pub to_int-lt : (s : Status) → to_int s < 2 ^ 31
to_int-lt s = ground arith

module _ (w : Wire) (l : IsWire w) where
  pub at_end : (fuel : ℕ) (x : Response) → merge_partial_loop w (suc fuel) x [] ≡ success x []
  unfolding merge_partial_loop
  at_end fuel x = rw l.tag_at_end

  pub expect_nothing : (t : ℕ) (rest : Bytes) → t ≢ 0 → w.expect_tag t [] ≡ some rest → ⊥
  expect_nothing t rest h e = ground (arith, l.expect_tag_sound t [] rest e, l.tag_at_end)

  -- A tag that ExpectTag took is the one that the value behind it was written with.
  pub expect_value {ℓ} :
      {A : Type ℓ} (read : Bytes → Option (A × Bytes)) (t : ℕ) (v : A) (rest input : Bytes)
      (rest' : Bytes)
      → ReadsBack w read t v rest input
      → w.expect_tag t input ≡ some rest'
      → read rest' ≡ some (v, rest)
  expect_value read t v rest input rest' (body, tagged, r) e =
      let same : rest' ≡ body = cc (l.expect_tag_sound t input rest' e, tagged) in rw same r

  pub after_tag :
      (fuel : ℕ) (x : Response) (s body : Bytes)
      → w.read_string body ≡ some (s, [])
      → parse_message w (merge_partial_loop w (suc fuel)) x body ≡ success (set_message x s) []
  unfolding parse_message
  after_tag fuel x s body e = elim (Bool-cases (w.expect_at_end [])) [
    | inl over ↦ rw (e, parse_message, over)
    | inr more ↦ rw (e, parse_message, more) (at_end fuel _)
  ]

  pub message_round :
      (fuel : ℕ) (x : Response) (s : Bytes)
      → length s < 2 ^ 30
      → merge_partial_loop w (suc (suc fuel)) x (w.write_string 3 s ++ [])
        ≡ success (set_message x s) []
  unfolding merge_partial_loop
  message_round fuel x s h =
      let (body, t, r) = l.string_back 3 s [] (omega arith) h in rw t (after_tag fuel x s body r)

  -- parse_status on a valid value, whether or not the tag of a message follows.
  pub status_after_tag :
      (fuel : ℕ) (x : Response) (s : Status) (body rest : Bytes) (p : Parsed)
      → w.read_enum body ≡ some (to_int s, rest)
      → merge_partial_loop w fuel (set_status x s) rest ≡ p
      → ((rest' : Bytes)
          → w.expect_tag 26 rest ≡ some rest'
          → parse_message w (merge_partial_loop w fuel) (set_status x s) rest' ≡ p)
      → parse_status w (merge_partial_loop w fuel) x body ≡ p
  unfolding parse_status
  status_after_tag fuel x s body rest p e plain short =
      let (back, valid) = of_int-to_int s in
      elim (Option-cases (w.expect_tag 26 rest)) [
        | inl n ↦ rw (e, parse_status, n, valid, back) plain
        | inr (rest', n) ↦ rw (e, parse_status, n, valid, back) (short rest' n)
      ]

  pub status_round :
      (fuel : ℕ) (x : Response) (s : Status) (rest : Bytes) (p : Parsed)
      → merge_partial_loop w fuel (set_status x s) rest ≡ p
      → ((rest' : Bytes)
          → w.expect_tag 26 rest ≡ some rest'
          → parse_message w (merge_partial_loop w fuel) (set_status x s) rest' ≡ p)
      → merge_partial_loop w (suc fuel) x (w.write_enum 2 (to_int s) ++ rest) ≡ p
  unfolding merge_partial_loop
  status_round fuel x s rest p plain short =
      let (body, t, r) = l.enum_back 2 (to_int s) rest (omega arith) (to_int-lt s) in
      rw t (status_after_tag fuel x s body rest p r plain short)

  pub id_round :
      (fuel : ℕ) (x : Response) (v : ℕ) (rest : Bytes) (p : Parsed)
      → v < 2 ^ 64
      → merge_partial_loop w fuel (set_id x v) rest ≡ p
      → ((rest' : Bytes)
          → w.expect_tag 16 rest ≡ some rest'
          → parse_status w (merge_partial_loop w fuel) (set_id x v) rest' ≡ p)
      → merge_partial_loop w (suc fuel) x (w.write_uint64 1 v ++ rest) ≡ p
  unfolding merge_partial_loop
  id_round fuel x v rest p h plain short =
      let (body, t, r) = l.uint64_back 1 v rest (omega arith) h in
      elim (Option-cases (w.expect_tag 16 rest)) [
        | inl e ↦ rw (t, r, parse_id, e) plain
        | inr (rest', e) ↦ rw (t, r, parse_id, e) (short rest' e)
      ]
