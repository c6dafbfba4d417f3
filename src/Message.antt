-- ===== src/Message.antt =====
-- ::google::protobuf::Message as the rest of the program uses it. The library is not under src/: its
-- functions are the fields of `Codec`, and what its documentation promises of them are the laws of
-- `IsCodec`. src/protob/ fills both for Request and Response.
use carrot_rpc.Prelude.{
  ℕ, ◌^◌, ◌≤◌, ◌<◌, ◌≡◌, Bool, true, false, Option, none, some, Bytes, length, take, ltb,
  if◌then◌else◌, Bool-cases, subst, sym, inl, inr,
}

pub record Codec (M : Type 0) : Type 0 where
  -- ByteSize()
  pub byte_size : M → ℕ
  -- What SerializeToArray(data, size) writes at `data`; none where it returns false.
  pub serialize_to_array : M → ℕ → Option Bytes
  -- ParseFromArray on the bytes of the array; none where it returns false.
  pub parse_from_array : Bytes → Option M
  -- The same functions called with a size that is negative as an int; `parse_negative` gets the uint32_t that
  -- the size was and the memory at the array. The library promises nothing of them.
  pub serialize_negative : M → ℕ → Option Bytes
  pub parse_negative : ℕ → Bytes → Option M

-- SerializeToArray(data, size) where the program passes a uint32_t as the int size.
abbrev pub serialize_sized : {M : Type 0} → Codec M → M → ℕ → Option Bytes
serialize_sized c m size =
    if ltb size (2 ^ 31) then c.serialize_to_array m size else c.serialize_negative m size

-- ParseFromArray(data, size) where the program passes a uint32_t as the int size, and what follows it. `within`
-- tells whether the array lies within the bytes at hand, as it must if the size is not negative.
abbrev pub parse_sized :
    {M A : Type 0}
    → (Bytes → Option M)
    → (ℕ → Bytes → Option M)
    → ℕ
    → Bytes
    → Bool
    → A
    → (Option M → A)
    → A
parse_sized parse negative size bytes within beyond k =
    if ltb size (2 ^ 31)
    then if within then k (parse (take size bytes)) else beyond
    else k (negative size bytes)

-- What ParseFromArray makes of an array that lies within the bytes at hand.
abbrev pub parse_at : {M : Type 0} → Codec M → ℕ → Bytes → Option M
parse_at c size bytes =
    if ltb size (2 ^ 31) then c.parse_from_array (take size bytes) else c.parse_negative size bytes

-- What holds beyond the bytes at hand and behind every result holds of the call.
pub parse_sized-holds :
    {M A : Type 0} (P : A → Type 0) (parse : Bytes → Option M) (negative : ℕ → Bytes → Option M)
    (size : ℕ) (bytes : Bytes) (within : Bool) (beyond : A) (k : Option M → A)
    → P beyond
    → ((o : Option M) → P (k o))
    → P (parse_sized parse negative size bytes within beyond k)
parse_sized-holds P parse negative size bytes within beyond k h f =
    elim (Bool-cases (ltb size (2 ^ 31))) [
      | inr z ↦ rw z (f (negative size bytes))
      | inl y ↦ elim (Bool-cases within) [
        | inl e ↦ rw (y, e) (f (parse (take size bytes)))
        | inr e ↦ rw (y, e) h
      ]
    ]

-- What holds beyond the bytes at hand and behind the result holds of the call.
pub parse_sized-at :
    {M A : Type 0} (P : A → Type 0) (c : Codec M) (size : ℕ) (bytes : Bytes) (within : Bool)
    (beyond : A) (k : Option M → A) (o : Option M)
    → parse_at c size bytes ≡ o
    → P beyond
    → P (k o)
    → P (parse_sized c.parse_from_array c.parse_negative size bytes within beyond k)
parse_sized-at P c size bytes within beyond k o e h f = elim (Bool-cases (ltb size (2 ^ 31))) [
  | inr z ↦ rw z (subst (λ o. P (k o)) (sym (rw z at e)) f)
  | inl y ↦ elim (Bool-cases within) [
    | inl w ↦ rw (y, w) (subst (λ o. P (k o)) (sym (rw y at e)) f)
    | inr w ↦ rw (y, w) h
  ]
]

-- ByteSize is an int and the size of what is written; an array of that size is large enough. A message is
-- read back from its bytes if its required fields are set, and is refused if one of them is not.
pub record IsCodec {M : Type 0} (c : Codec M) (initialized : M → Bool) (fits : M → Type 0)
    : Type 0 where
  pub bytes_of : M → Bytes
  pub size_is_int : (m : M) → fits m → c.byte_size m < 2 ^ 31
  pub length-bytes_of : (m : M) → fits m → length (bytes_of m) ≡ c.byte_size m
  pub serialize :
      (m : M) (size : ℕ)
      → fits m
      → c.byte_size m ≤ size
      → c.serialize_to_array m size ≡ some (bytes_of m)
  pub parse-bytes_of :
      (m : M) → fits m → initialized m ≡ true → c.parse_from_array (bytes_of m) ≡ some m
  pub parse_refuses :
      (m : M) → fits m → initialized m ≡ false → c.parse_from_array (bytes_of m) ≡ none
