-- ===== src/Protob/Response.antt =====
-- The class Response of src/protob/rpc.pb.h and rpc.pb.cc, modelled as Request is. The int status_ is a
-- Status, since the code stores valid values only.
pub mod Merge
pub mod Parse
pub mod Fields
pub mod RoundTrip
mod Examples
use carrot_rpc.Prelude.{
  ℕ, zero, suc, ◌+◌, ◌/◌, ◌%◌, Bool, true, false, ◌||◌, ◌&&◌, Option, none, some, List, [], ◌∷◌,
  ◌++◌, Bytes, ◌==◌, if◌then◌else◌, length, ◌≡◌, ◌⊎◌, ◌<◌, ◌^◌,
}
use carrot_rpc.Protob.Status
use carrot_rpc.Protob.Status.{Status, to_int, of_int, status_is_valid}
use carrot_rpc.Protob.Wire.{Wire, Tag}

pub record Response : Type 0 where
  pub has_id : Bool
  pub id : ℕ
  pub has_status : Bool
  pub status : Status
  pub has_message : Bool
  pub message : Bytes
  pub unknown_fields : List Bytes

-- The constructor, by SharedCtor: the default status is SUCCESS.
abbrev pub new_response : Response
new_response = record {
  has_id = false;
  id = 0;
  has_status = false;
  status = Status.success;
  has_message = false;
  message = [];
  unknown_fields = [];
}

abbrev pub set_id : Response → ℕ → Response
set_id m value = record m { has_id = true; id = value }

abbrev pub set_status : Response → Status → Response
set_status m value = record m { has_status = true; status = value }

abbrev pub set_message : Response → Bytes → Response
set_message m value = record m { has_message = true; message = value }

unfoldable pub clear_id : Response → Response
clear_id m = record m { has_id = false; id = 0 }

unfoldable pub clear_status : Response → Response
clear_status m = record m { has_status = false; status = Status.success }

unfoldable pub clear_message : Response → Response
clear_message m = record m { has_message = false; message = [] }

abbrev any_set : Response → Bool
any_set m = m.has_id || m.has_status || m.has_message

-- The fields are reset only where a has-bit is set, the string only where its own is.
unfoldable pub clear : Response → Response
clear m = record {
  has_id = false;
  id = if any_set m then 0 else m.id;
  has_status = false;
  status = if any_set m then Status.success else m.status;
  has_message = false;
  message = if m.has_message then [] else m.message;
  unknown_fields = [];
}

merge_id : Response → Response → Response
merge_id m from = if from.has_id then set_id m from.id else m

merge_status : Response → Response → Response
merge_status m from = if from.has_status then set_status m from.status else m

merge_message : Response → Response → Response
merge_message m from = if from.has_message then set_message m from.message else m

-- MergeFrom another Response.
unfoldable pub merge_from : Response → Response → Response
unfolding merge_id merge_status merge_message
merge_from m from =
    let fields =
      if any_set from then merge_message (merge_status (merge_id m from) from) from else m in
    record fields { unknown_fields = fields.unknown_fields ++ from.unknown_fields }

-- CopyFrom another object.
unfoldable pub copy_from : Response → Response → Response
copy_from m from = merge_from (clear m) from

-- The has-bits of id and status, the two required fields.
unfoldable pub is_initialized : Response → Bool
is_initialized m = m.has_id && m.has_status

abbrev is_empty {ℓ} : {A : Type ℓ} → List A → Bool
is_empty [] = true
is_empty (x ∷ xs) = false

unfoldable pub byte_size : Wire → Response → ℕ
byte_size w m =
    (if any_set m
      then (if m.has_id then 1 + w.uint64_size m.id else 0)
        + (if m.has_status then 1 + w.enum_size (to_int m.status) else 0)
        + (if m.has_message then 1 + w.string_size m.message else 0)
      else 0)
    + (if is_empty m.unknown_fields then 0 else w.unknown_size m.unknown_fields)

-- SerializeWithCachedSizesToArray: what is written from `target` on.
unfoldable pub serialize : Wire → Response → Bytes
serialize w m =
    (if m.has_id then w.write_uint64 1 m.id else [])
    ++ ((if m.has_status then w.write_enum 2 (to_int m.status) else [])
        ++ ((if m.has_message then w.write_string 3 m.message else [])
            ++ (if is_empty m.unknown_fields then [] else w.write_unknown m.unknown_fields)))

-- MergePartialFromCodedStream: true with the message and what is left of the stream, or false. `looping` is
-- no result of the code: the fuel was used up inside the loop.
pub data Parsed : Type 0 where
  success : Response → Bytes → Parsed
  failure : Parsed
  looping : Parsed

-- The labels of the loop, each over the way back to its top.
module _ (w : Wire) (again : Response → Bytes → Parsed) where
  -- handle_unusual
  unfoldable pub handle_unusual : ℕ → Response → Bytes → Parsed
  handle_unusual tag m input =
      if tag == 0 || tag % 8 == 4 then success m input else elim (w.skip_field tag input) [
        | none ↦ failure
        | some (u, rest) ↦ again (record m { unknown_fields = m.unknown_fields ++ u ∷ [] }) rest
      ]

  -- parse_message
  unfoldable pub parse_message : Response → Bytes → Parsed
  parse_message m input = elim (w.read_string input) [
    | none ↦ failure
    | some (s, rest) ↦
        if w.expect_at_end rest
        then success (set_message m s) rest
        else again (set_message m s) rest
  ]

  -- A value that is no constant of the enum is kept as an unknown field.
  abbrev keep_status : Response → ℕ → Response
  keep_status m value =
      if status_is_valid value
      then set_status m (of_int value)
      else record m { unknown_fields = m.unknown_fields ++ w.varint_field 2 value ∷ [] }

  -- parse_status
  unfoldable pub parse_status : Response → Bytes → Parsed
  parse_status m input = elim (w.read_enum input) [
    | none ↦ failure
    | some (value, rest) ↦ elim (w.expect_tag 26 rest) [
      | none ↦ again (keep_status m value) rest
      | some rest' ↦ parse_message (keep_status m value) rest'
    ]
  ]

  parse_id : Response → Bytes → Parsed
  parse_id m input = elim (w.read_uint64 input) [
    | none ↦ failure
    | some (v, rest) ↦ elim (w.expect_tag 16 rest) [
      | none ↦ again (set_id m v) rest
      | some rest' ↦ parse_status (set_id m v) rest'
    ]
  ]

  parse_field : Tag → Response → Parsed
  parse_field t m =
      let unusual = handle_unusual t.tag m t.rest in
      if t.within
      then if t.tag / 8 == 1
        then if t.tag == 8 then parse_id m t.rest else unusual
        else if t.tag / 8 == 2
        then if t.tag == 16 then parse_status m t.rest else unusual
        else if t.tag / 8 == 3
        then if t.tag == 26 then parse_message m t.rest else unusual
        else unusual
      else unusual

-- One round takes a tag off the stream.
unfoldable pub merge_partial_loop : Wire → ℕ → Response → Bytes → Parsed
unfolding parse_field parse_id parse_status parse_message handle_unusual
merge_partial_loop w zero m input = looping
merge_partial_loop w (suc fuel) m input =
    parse_field w (merge_partial_loop w fuel) (w.read_tag input) m

unfoldable pub merge_partial : Wire → Response → Bytes → Parsed
unfolding merge_partial_loop
merge_partial w m input = merge_partial_loop w (suc (suc (suc (suc (length input))))) m input

-- An unset field holds its default.
pub record IsTidy (m : Response) : Type 0 where
  pub id_default : (m.has_id ≡ true) ⊎ (m.id ≡ 0)
  pub status_default : (m.has_status ≡ true) ⊎ (m.status ≡ Status.success)
  pub message_default : (m.has_message ≡ true) ⊎ (m.message ≡ [])

-- What fits on the wire: a uint64, and a string that the library takes.
pub record Fits (m : Response) : Type 0 where
  pub tidy : IsTidy m
  pub id_is_u64 : m.id < 2 ^ 64
  pub short : length m.message < 2 ^ 30
  pub known : m.unknown_fields ≡ []
