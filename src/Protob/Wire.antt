-- ===== src/Protob/Wire.antt =====
-- What src/protob/rpc.pb.cc calls in the protobuf library: CodedInputStream, WireFormatLite and
-- WireFormat as the fields of `Wire`, the documented behaviour as the laws of `IsWire`. An input stream
-- is the bytes that are left; an unknown field is the bytes of its encoding.
use carrot_rpc.Prelude.{
  ℕ, ◌+◌, ◌*◌, ◌^◌, ◌≤◌, ◌<◌, ◌≡◌, ◌≢◌, Bool, true, false, Option, some, List, [], ◌++◌, Bytes,
  length,
}

-- ReadTagWithCutoff(127): the tag, whether it is at most the cutoff, and what is left.
pub record Tag : Type 0 where
  pub tag : ℕ
  pub within : Bool
  pub rest : Bytes

pub record Wire : Type 0 where
  pub read_tag : Bytes → Tag
  -- ExpectTag: what is left if the tag comes next and was taken.
  pub expect_tag : ℕ → Bytes → Option Bytes
  pub expect_at_end : Bytes → Bool
  -- ReadPrimitive for TYPE_UINT64 and TYPE_ENUM, ReadString, SkipField.
  pub read_uint64 : Bytes → Option (ℕ × Bytes)
  pub read_enum : Bytes → Option (ℕ × Bytes)
  pub read_string : Bytes → Option (Bytes × Bytes)
  pub skip_field : ℕ → Bytes → Option (Bytes × Bytes)
  -- UnknownFieldSet::AddVarint.
  pub varint_field : ℕ → ℕ → Bytes
  -- WriteUInt64, WriteEnum, WriteString: a tag of the field's number and the value.
  pub write_uint64 : ℕ → ℕ → Bytes
  pub write_enum : ℕ → ℕ → Bytes
  pub write_string : ℕ → Bytes → Bytes
  pub write_unknown : List Bytes → Bytes
  pub uint64_size : ℕ → ℕ
  pub enum_size : ℕ → ℕ
  pub string_size : Bytes → ℕ
  pub unknown_size : List Bytes → ℕ

-- `input` begins with the tag `t`, and `read` reads `v` behind it and leaves `rest`.
abbrev pub ReadsBack {ℓ} :
    {A : Type ℓ} → Wire → (Bytes → Option (A × Bytes)) → ℕ → A → Bytes → Bytes → Type ℓ
ReadsBack w read t v rest input =
    (body : Bytes) × (w.read_tag input ≡ record { tag = t; within = true; rest = body })
    × (read body ≡ some (v, rest))

pub record IsWire (w : Wire) : Type 0 where
  -- Tag 0 stands for the end of the stream.
  pub tag_at_end : w.read_tag [] ≡ record { tag = 0; within = false; rest = [] }
  pub expect_tag_sound :
      (t : ℕ) (input rest : Bytes)
      → w.expect_tag t input ≡ some rest
      → w.read_tag input ≡ record { tag = t; within = true; rest = rest }
  pub expect_at_end_sound : (input : Bytes) → w.expect_at_end input ≡ true → input ≡ []
  pub uint64_back :
      (f v : ℕ) (rest : Bytes)
      → f < 16
      → v < 2 ^ 64
      → ReadsBack w w.read_uint64 (f * 8) v rest (w.write_uint64 f v ++ rest)
  pub enum_back :
      (f v : ℕ) (rest : Bytes)
      → f < 16
      → v < 2 ^ 31
      → ReadsBack w w.read_enum (f * 8) v rest (w.write_enum f v ++ rest)
  pub string_back :
      (f : ℕ) (s rest : Bytes)
      → f < 16
      → length s < 2 ^ 30
      → ReadsBack w w.read_string (f * 8 + 2) s rest (w.write_string f s ++ rest)
  -- A tag of a field below 16 is one byte.
  pub length-write_uint64 :
      (f v : ℕ) → f < 16 → v < 2 ^ 64 → length (w.write_uint64 f v) ≡ 1 + w.uint64_size v
  pub length-write_enum :
      (f v : ℕ) → f < 16 → v < 2 ^ 31 → length (w.write_enum f v) ≡ 1 + w.enum_size v
  pub length-write_string :
      (f : ℕ) (s : Bytes) → f < 16 → length (w.write_string f s) ≡ 1 + w.string_size s
  pub length-write_unknown : (us : List Bytes) → length (w.write_unknown us) ≡ w.unknown_size us
  -- Sizes: a varint takes 10 bytes at most, a length 5 at most.
  pub uint64_size_le : (v : ℕ) → v < 2 ^ 64 → w.uint64_size v ≤ 10
  pub enum_size_le : (v : ℕ) → v < 2 ^ 31 → w.enum_size v ≤ 10
  pub string_size_le : (s : Bytes) → length s < 2 ^ 30 → w.string_size s ≤ 5 + length s
  -- Reading takes bytes off the stream, and never puts any back.
  pub tag_takes :
      (input : Bytes) → (w.read_tag input).tag ≢ 0 → length (w.read_tag input).rest < length input
  pub uint64_takes :
      (input rest : Bytes) (v : ℕ)
      → w.read_uint64 input ≡ some (v, rest)
      → length rest ≤ length input
  pub enum_takes :
      (input rest : Bytes) (v : ℕ) → w.read_enum input ≡ some (v, rest) → length rest ≤ length input
  pub string_takes :
      (input rest s : Bytes) → w.read_string input ≡ some (s, rest) → length rest ≤ length input
  pub skip_takes :
      (t : ℕ) (input rest u : Bytes)
      → w.skip_field t input ≡ some (u, rest)
      → length rest ≤ length input
