-- ===== src/Protob/Request.antt =====
-- The class Request of src/protob/rpc.pb.h and rpc.pb.cc. A bit of _has_bits_ is a Bool; the shared empty
-- string and a string of its own that is empty are not told apart, nor is the cached size kept.
pub mod Merge
pub mod Parse
pub mod RoundTrip
mod Examples
use carrot_rpc.Prelude.{
  ℕ, zero, suc, ◌+◌, ◌/◌, ◌%◌, Bool, true, false, ◌||◌, ◌&&◌, Option, none, some, List, [], ◌∷◌,
  ◌++◌, Bytes, ◌==◌, if◌then◌else◌, length, ◌≡◌, ◌⊎◌, ◌<◌, ◌^◌,
}
use carrot_rpc.Protob.Wire.{Wire, Tag}

pub record Request : Type 0 where
  pub has_id : Bool
  pub id : ℕ
  pub has_method_identity : Bool
  pub method_identity : Bytes
  pub unknown_fields : List Bytes

-- The constructor, by SharedCtor.
abbrev pub new_request : Request
new_request = record {
  has_id = false;
  id = 0;
  has_method_identity = false;
  method_identity = [];
  unknown_fields = [];
}

abbrev pub set_id : Request → ℕ → Request
set_id m value = record m { has_id = true; id = value }

abbrev pub set_method_identity : Request → Bytes → Request
set_method_identity m value = record m { has_method_identity = true; method_identity = value }

unfoldable pub clear_id : Request → Request
clear_id m = record m { has_id = false; id = 0 }

unfoldable pub clear_method_identity : Request → Request
clear_method_identity m = record m { has_method_identity = false; method_identity = [] }

-- The fields are reset only where a has-bit is set, the string only where its own is.
unfoldable pub clear : Request → Request
clear m = record {
  has_id = false;
  id = if m.has_id || m.has_method_identity then 0 else m.id;
  has_method_identity = false;
  method_identity = if m.has_method_identity then [] else m.method_identity;
  unknown_fields = [];
}

merge_id : Request → Request → Request
merge_id m from = if from.has_id then set_id m from.id else m

merge_method_identity : Request → Request → Request
merge_method_identity m from =
    if from.has_method_identity then set_method_identity m from.method_identity else m

-- MergeFrom another Request.
unfoldable pub merge_from : Request → Request → Request
unfolding merge_id merge_method_identity
merge_from m from =
    let fields =
      if from.has_id || from.has_method_identity
      then merge_method_identity (merge_id m from) from
      else m in
    record fields { unknown_fields = fields.unknown_fields ++ from.unknown_fields }

-- CopyFrom another object.
unfoldable pub copy_from : Request → Request → Request
unfolding clear merge_from
copy_from m from = merge_from (clear m) from

unfoldable pub is_initialized : Request → Bool
is_initialized m = m.has_id && m.has_method_identity

-- Swap exchanges the two objects field by field.
unfoldable pub swap : Request → Request → Request × Request
swap m other = (
  record {
    has_id = other.has_id;
    id = other.id;
    has_method_identity = other.has_method_identity;
    method_identity = other.method_identity;
    unknown_fields = other.unknown_fields;
  },
  record {
    has_id = m.has_id;
    id = m.id;
    has_method_identity = m.has_method_identity;
    method_identity = m.method_identity;
    unknown_fields = m.unknown_fields;
  },
)

abbrev is_empty {ℓ} : {A : Type ℓ} → List A → Bool
is_empty [] = true
is_empty (x ∷ xs) = false

unfoldable pub byte_size : Wire → Request → ℕ
byte_size w m =
    (if m.has_id || m.has_method_identity
      then (if m.has_id then 1 + w.uint64_size m.id else 0)
        + (if m.has_method_identity then 1 + w.string_size m.method_identity else 0)
      else 0)
    + (if is_empty m.unknown_fields then 0 else w.unknown_size m.unknown_fields)

-- SerializeWithCachedSizesToArray: what is written from `target` on.
unfoldable pub serialize : Wire → Request → Bytes
serialize w m =
    (if m.has_id then w.write_uint64 1 m.id else [])
    ++ ((if m.has_method_identity then w.write_string 2 m.method_identity else [])
        ++ (if is_empty m.unknown_fields then [] else w.write_unknown m.unknown_fields))

-- MergePartialFromCodedStream: true with the message and what is left of the stream, or false. `looping` is
-- no result of the code: the fuel was used up inside the loop.
pub data Parsed : Type 0 where
  success : Request → Bytes → Parsed
  failure : Parsed
  looping : Parsed

-- The labels of the loop, each over the way back to its top.
module _ (w : Wire) (again : Request → Bytes → Parsed) where
  -- handle_unusual
  unfoldable pub handle_unusual : ℕ → Request → Bytes → Parsed
  handle_unusual tag m input =
      if tag == 0 || tag % 8 == 4 then success m input else elim (w.skip_field tag input) [
        | none ↦ failure
        | some (u, rest) ↦ again (record m { unknown_fields = m.unknown_fields ++ u ∷ [] }) rest
      ]

  -- parse_method_identity
  unfoldable pub parse_method_identity : Request → Bytes → Parsed
  parse_method_identity m input = elim (w.read_string input) [
    | none ↦ failure
    | some (s, rest) ↦
        if w.expect_at_end rest
        then success (set_method_identity m s) rest
        else again (set_method_identity m s) rest
  ]

  parse_id : Request → Bytes → Parsed
  parse_id m input = elim (w.read_uint64 input) [
    | none ↦ failure
    | some (v, rest) ↦ elim (w.expect_tag 18 rest) [
      | none ↦ again (set_id m v) rest
      | some rest' ↦ parse_method_identity (set_id m v) rest'
    ]
  ]

  parse_field : Tag → Request → Parsed
  parse_field t m =
      if t.within
      then if t.tag / 8 == 1
        then if t.tag == 8 then parse_id m t.rest else handle_unusual t.tag m t.rest
        else if t.tag / 8 == 2
        then if t.tag == 18 then parse_method_identity m t.rest else handle_unusual t.tag m t.rest
        else handle_unusual t.tag m t.rest
      else handle_unusual t.tag m t.rest

-- One round takes a tag off the stream.
unfoldable pub merge_partial_loop : Wire → ℕ → Request → Bytes → Parsed
unfolding parse_field parse_id parse_method_identity handle_unusual
merge_partial_loop w zero m input = looping
merge_partial_loop w (suc fuel) m input =
    parse_field w (merge_partial_loop w fuel) (w.read_tag input) m

unfoldable pub merge_partial : Wire → Request → Bytes → Parsed
unfolding merge_partial_loop
merge_partial w m input = merge_partial_loop w (suc (suc (suc (length input)))) m input

-- An unset field holds its default.
pub record IsTidy (m : Request) : Type 0 where
  pub id_default : (m.has_id ≡ true) ⊎ (m.id ≡ 0)
  pub method_identity_default : (m.has_method_identity ≡ true) ⊎ (m.method_identity ≡ [])

-- What fits on the wire: a uint64, and a string that the library takes.
pub record Fits (m : Request) : Type 0 where
  pub tidy : IsTidy m
  pub id_is_u64 : m.id < 2 ^ 64
  pub short : length m.method_identity < 2 ^ 30
  pub known : m.unknown_fields ≡ []
