-- ===== src/Buffer.antt =====
-- The growing packet buffers: expand_packet of src/common/utils.cpp and expand_connection_packet of
-- src/server/carrot_simple_server.cpp. The allocator is a parameter, the set of sizes that realloc
-- grants; a block is known by its size. `looping` is no result of the code: the loop is still running
-- when the fuel is used up.
pub mod Growth
pub mod Overflow
mod Examples
use carrot_rpc.Prelude.{
  ℕ, zero, suc, ◌*◌, ◌≤◌, ◌≡◌, ◌⊎◌, Bool, true, false, ◌||◌, Option, none, some, ltb, ◌==◌,
  if◌then◌else◌, ◌^◌, arith, ap,
}
use native.Mathlib.Nat.{pow-suc}
use carrot_rpc.Packet.{u32}

-- `p` and `size` of a connection or task: the size of the block at `p`, none where `p` is NULL.
pub record Buffer : Type 0 where
  pub block : Option ℕ
  pub size : ℕ

abbrev pub empty_buffer : Buffer
empty_buffer = record { block = none; size = 0 }

pub data Expanded : Type 0 where
  ready : Buffer → Expanded
  failed : Buffer → Expanded
  looping : Expanded

abbrev pub is_null : Option ℕ → Bool
is_null none = true
is_null (some k) = false

-- `while (*size < n) *size *= 2;` on a uint32_t.
unfoldable pub grow : ℕ → ℕ → ℕ → Option ℕ
grow zero size n = none
grow (suc fuel) size n =
    let rest = grow fuel (u32 (size * 2)) n in if ltb size n then rest else some size

abbrev pub reallocate : (ℕ → Bool) → ℕ → Expanded
reallocate grants s =
    if grants s
    then ready (record { block = some s; size = s })
    else failed (record { block = none; size = s })

unfoldable pub expand_packet : (ℕ → Bool) → ℕ → Buffer → ℕ → Expanded
expand_packet grants fuel b n =
    if ltb b.size n || is_null b.block
    then elim (grow fuel (if b.size == 0 then 1 else b.size) n) [
      | none ↦ looping
      | some s ↦ reallocate grants s
    ]
    else ready b

-- Grows to the size asked for; a refusal loses the block and keeps the old size.
unfoldable pub expand_connection_packet : (ℕ → Bool) → Buffer → ℕ → Expanded
expand_connection_packet grants b n =
    if ltb b.size n || is_null b.block
    then if grants n
      then ready (record { block = some n; size = n })
      else failed (record { block = none; size = b.size })
    else ready b

-- Doubling first or last.
double_pow : (s j : ℕ) → s * 2 * 2 ^ j ≡ s * 2 ^ suc j
double_pow s j = omega (arith, ap (λ (t : ℕ). s * t) (pow-suc 2 j))

-- The block is as long as `size` says, or there is none.
abbrev pub IsConsistent : Buffer → Type 0
IsConsistent b = (b.block ≡ none) ⊎ (b.block ≡ some b.size)

-- What a caller that asks for `n` bytes may rely on: a block of `n` bytes at least, or a NULL `p`
-- because the allocator refused a size that is not below `n`.
abbrev pub Serves : (ℕ → Bool) → ℕ → Expanded → Type 0
Serves grants n (ready c) = (c.block ≡ some c.size) × (n ≤ c.size)
Serves grants n (failed c) = (s : ℕ) × (grants s ≡ false) × (n ≤ s) × (c.block ≡ none)
Serves grants n looping = ⊥
