-- ===== src/Protob/Sample.antt =====
-- A library to run the model with: a varint is one number, and a string stands behind its length. It
-- meets the laws that the development assumes of the protobuf library.
use carrot_rpc.Prelude.{
  ℕ, ◌≢◌, suc, ◌+◌, ◌*◌, ◌≤◌, ◌<◌, ◌≡◌, refl, Bool, true, false, Option, none, some, List, [], ◌∷◌,
  ◌++◌, Bytes, arith, length, take, drop, take-append, drop-append, length-drop, length-append, leb,
  if◌then◌else◌, ◌==◌,
}
use carrot_rpc.Protob.Wire.{Wire, IsWire, Tag}
use carrot_rpc.Protob.Codec.{Lite, IsLite}

abbrev read_tag : Bytes → Tag
read_tag [] = record { tag = 0; within = false; rest = [] }
read_tag (t ∷ rest) = record { tag = t; within = leb t 127; rest = rest }

abbrev expect_tag : ℕ → Bytes → Option Bytes
expect_tag t [] = none
expect_tag t (b ∷ rest) = if b == t then if leb t 127 then some rest else none else none

abbrev is_end : Bytes → Bool
is_end [] = true
is_end (b ∷ rest) = false

abbrev read_number : Bytes → Option (ℕ × Bytes)
read_number [] = none
read_number (v ∷ rest) = some (v, rest)

abbrev read_text : Bytes → Option (Bytes × Bytes)
read_text [] = none
read_text (n ∷ rest) = if leb n (length rest) then some (take n rest, drop n rest) else none

abbrev skip_number : ℕ → Bytes → Option (Bytes × Bytes)
skip_number t [] = none
skip_number t (v ∷ rest) = some (t ∷ v ∷ [], rest)

abbrev flatten : List Bytes → Bytes
flatten [] = []
flatten (u ∷ us) = u ++ flatten us

abbrev pub sample_wire : Wire
sample_wire = record {
  read_tag = read_tag;
  expect_tag = expect_tag;
  expect_at_end = is_end;
  read_uint64 = read_number;
  read_enum = read_number;
  read_string = read_text;
  skip_field = skip_number;
  varint_field = λ f v. f * 8 ∷ v ∷ [];
  write_uint64 = λ f v. (f * 8) ∷ v ∷ [];
  write_enum = λ f v. (f * 8) ∷ v ∷ [];
  write_string = λ f s. (f * 8 + 2) ∷ length s ∷ s;
  write_unknown = flatten;
  uint64_size = λ v. 1;
  enum_size = λ v. 1;
  string_size = λ s. suc (length s);
  unknown_size = λ us. length (flatten us);
}

expect_tag-read_tag :
    (t : ℕ) (input rest : Bytes)
    → expect_tag t input ≡ some rest
    → read_tag input ≡ record { tag = t; within = true; rest = rest }
expect_tag-read_tag t [] rest e = cc
expect_tag-read_tag t (b ∷ bs) rest e = ground arith

is_end-nil : (input : Bytes) → is_end input ≡ true → input ≡ []
is_end-nil [] e = refl
is_end-nil (b ∷ bs) e = cc

read_text-append : (s rest : Bytes) → read_text (length s ∷ (s ++ rest)) ≡ some (s, rest)
read_text-append s rest =
    ground (arith, take-append s rest, drop-append s rest, length-append s rest)

read_tag-lt :
    (input : Bytes) → (read_tag input).tag ≢ 0 → length (read_tag input).rest < length input
read_tag-lt [] h = absurd (h refl)
read_tag-lt (b ∷ bs) h = omega arith

read_number-le :
    (input rest : Bytes) (v : ℕ) → read_number input ≡ some (v, rest) → length rest ≤ length input
read_number-le [] rest v e = cc
read_number-le (b ∷ bs) rest v e = ground arith

read_text-le :
    (input rest s : Bytes) → read_text input ≡ some (s, rest) → length rest ≤ length input
read_text-le [] rest s e = cc
read_text-le (n ∷ bs) rest s e = ground (arith, length-drop n bs)

skip_number-le :
    (t : ℕ) (input rest u : Bytes)
    → skip_number t input ≡ some (u, rest)
    → length rest ≤ length input
skip_number-le t [] rest u e = cc
skip_number-le t (b ∷ bs) rest u e = ground arith

pub sample_wire-IsWire : IsWire sample_wire
sample_wire-IsWire = record {
  tag_at_end = refl;
  expect_tag_sound = expect_tag-read_tag;
  expect_at_end_sound = is_end-nil;
  uint64_back = λ f v rest h g. (v ∷ rest, ground arith, refl);
  enum_back = λ f v rest h g. (v ∷ rest, ground arith, refl);
  string_back = λ f s rest h g. (length s ∷ (s ++ rest), ground arith, read_text-append s rest);
  length-write_uint64 = λ f v h g. omega arith;
  length-write_enum = λ f v h g. omega arith;
  length-write_string = λ f s h. omega arith;
  length-write_unknown = λ us. refl;
  uint64_size_le = λ v h. omega arith;
  enum_size_le = λ v h. omega arith;
  string_size_le = λ s h. omega arith;
  tag_takes = read_tag-lt;
  uint64_takes = read_number-le;
  enum_takes = read_number-le;
  string_takes = read_text-le;
  skip_takes = skip_number-le;
}

abbrev pub sample_lite : {M : Type 0} → Lite M
sample_lite = record {
  parse_from_array = λ merge initialized bytes. elim (merge bytes) [
    | none ↦ none
    | some (m, rest) ↦ if is_end rest then if initialized m then some m else none else none
  ];
  serialize_to_array = λ written needed size. if leb needed size then some written else none;
  serialize_negative = λ m size. none;
  parse_negative = λ size bytes. none;
}

pub sample_lite-IsLite : {M : Type 0} → IsLite (sample_lite {M = M})
sample_lite-IsLite = record {
  parse_complete = λ merge initialized bytes m e i. rw (e, i);
  parse_missing = λ merge initialized bytes m e i. rw (e, i);
  serialize_fits = λ written needed size e h. ground arith;
}
