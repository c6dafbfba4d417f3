-- ===== src/Protob/Status.antt =====
-- The enum Status of src/protob/rpc.pb.h. A value is the int that the program passes round.
use carrot_rpc.Prelude.{ℕ, ◌≡◌, ◌↔◌, Bool, true, false, ◌||◌, ◌==◌, arith}

pub data Status : Type 0 where
  success error not_found failed : Status

abbrev pub to_int : Status → ℕ
to_int success = 1
to_int error = 2
to_int not_found = 3
to_int failed = 4

unfoldable pub status_is_valid : ℕ → Bool
status_is_valid value = value == 1 || value == 2 || value == 3 || value == 4

-- `static_cast<Status>(value)`, which the code makes of valid values only.
unfoldable pub of_int : ℕ → Status
of_int value = elim (value == 2) [
  | true ↦ error
  | false ↦ elim (value == 3) [
    | true ↦ not_found
    | false ↦ elim (value == 4) [ true ↦ failed | false ↦ success ]
  ]
]

-- Status_IsValid accepts exactly the ints of the four constants, and there the cast is the inverse of
-- the conversion to int.
pub status_is_valid_iff :
    (value : ℕ) → (status_is_valid value ≡ true) ↔ (to_int (of_int value) ≡ value)
unfolding status_is_valid of_int
status_is_valid_iff value = ground arith

pub of_int-to_int : (s : Status) → (of_int (to_int s) ≡ s) × (status_is_valid (to_int s) ≡ true)
unfolding status_is_valid of_int
of_int-to_int s = ground arith
