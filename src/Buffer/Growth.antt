-- ===== src/Buffer/Growth.antt =====
-- Where the requested size is at most 2^31, the loop of expand_packet ends.
use carrot_rpc.Prelude.{
  ℕ, zero, suc, ◌*◌, ◌^◌, ◌≤◌, ◌≡◌, refl, inl, inr, Bool, true, false, some, Option-cases, arith,
  ap, ltb, Bool-cases, ◌==◌, if◌then◌else◌, ◌||◌,
}
use Prim.Native.Nat.pow
use carrot_rpc.Packet.{u32}
use carrot_rpc.Buffer.{
  Buffer, Expanded, ready, failed, looping, grow, expand_packet, expand_connection_packet,
  IsConsistent, Serves, is_null, double_pow,
}

-- With `fuel` doublings in hand the loop stops at a size that is large enough.
grow_stops :
    (fuel size n : ℕ)
    → 1 ≤ size
    → n ≤ 2 ^ 31
    → n ≤ size * 2 ^ fuel
    → (s : ℕ) × (grow (suc fuel) size n ≡ some s) × (n ≤ s) × (size ≤ s)
unfolding grow
grow_stops zero size n h top enough =
    (size, ground (arith, pow.zero 2), ground (arith, pow.zero 2), ground arith)
grow_stops (suc fuel) size n h top enough = elim (Bool-cases (ltb size n)) [
  | inl more ↦
      let (s, e, le, ge) =
        grow_stops fuel (size * 2) n (omega arith) top (omega (arith, double_pow size fuel)) in
      (s, ground (arith, more), le, omega arith)
  | inr done ↦ (size, rw done, ground arith, ground arith)
]

-- Two to the 31 is the largest power of two in a uint32_t, and 32 rounds reach it: for a request
-- of at most 2^31 bytes from a consistent buffer expand_packet ends, and it gives a block of at least
-- that size, unless the allocator refuses a size that is not below the
-- requested one; then p is NULL.
pub expand_packet-Serves :
    (grants : ℕ → Bool) (b : Buffer) (n : ℕ)
    → IsConsistent b
    → n ≤ 2 ^ 31
    → Serves grants n (expand_packet grants 32 b n)
unfolding expand_packet
expand_packet-Serves grants b n c h =
    ground (arith, grow_stops 31 (if b.size == 0 then 1 else b.size) n)

-- expand_connection_packet gives a block of at least the size asked for for every request on
-- a consistent buffer, unless the allocator refuses.
pub expand_connection_packet-Serves :
    (grants : ℕ → Bool) (b : Buffer) (n : ℕ)
    → IsConsistent b
    → Serves grants n (expand_connection_packet grants b n)
unfolding expand_connection_packet
expand_connection_packet-Serves grants b n c = elim (Bool-cases (ltb b.size n || is_null b.block)) [
  | inl grows ↦ rw grows (elim (Bool-cases (grants n)) [
    | inl y ↦ rw y (ground arith)
    | inr z ↦ rw z (n, z, ground arith, refl)
  ])
  | inr fits ↦ ground (arith, fits)
]

-- A block that is large enough is left alone.
pub expand_packet-holds :
    (grants : ℕ → Bool) (fuel : ℕ) (b : Buffer) (n : ℕ)
    → b.block ≡ some b.size
    → n ≤ b.size
    → expand_packet grants fuel b n ≡ ready b
unfolding expand_packet
expand_packet-holds grants fuel b n whole h = rw (large, there) refl
  where
    large : ltb b.size n ≡ false
    large = ground (arith, h)

    there : is_null b.block ≡ false
    there = ap is_null whole

-- A block for `n` bytes, from an allocator that grants every size.
abbrev pub Holds : Buffer → ℕ → Type 0
Holds c n = (c.block ≡ some c.size) × (n ≤ c.size)

pub expand_packet-Ready :
    (grants : ℕ → Bool) (b : Buffer) (n : ℕ)
    → ((k : ℕ) → grants k ≡ true)
    → IsConsistent b
    → n ≤ 2 ^ 31
    → (c : Buffer) × (expand_packet grants 32 b n ≡ ready c) × Holds c n
expand_packet-Ready grants b n all consistent h =
    go (expand_packet grants 32 b n) refl (expand_packet-Serves grants b n consistent h)
  where
    go :
        (e : Expanded)
        → expand_packet grants 32 b n ≡ e
        → Serves grants n e
        → (c : Buffer) × (expand_packet grants 32 b n ≡ ready c) × Holds c n
    go (ready c) e (whole, enough) = (c, e, (whole, enough))
    go (failed c) e (k, refused, _, _) = absurd (cc (all k, refused))
    go looping e f = absurd f

grow-enough : (fuel size n s : ℕ) → grow fuel size n ≡ some s → n ≤ s
unfolding grow
grow-enough zero size n s e = cc
grow-enough (suc fuel) size n s e = elim (Bool-cases (ltb size n)) [
  | inl more ↦ grow-enough fuel (u32 (size * 2)) n s (ground (arith, more))
  | inr done ↦ ground (arith, done)
]

-- Whatever the request: if the call ends, the block holds `n` bytes, or the allocator refused.
abbrev pub HoldsIfReady : (ℕ → Bool) → ℕ → Expanded → Type 0
HoldsIfReady grants n (ready c) = Holds c n
HoldsIfReady grants n (failed c) = (k : ℕ) × (grants k ≡ false)
HoldsIfReady grants n looping = Unit {0}

pub expand_packet-HoldsIfReady :
    (grants : ℕ → Bool) (fuel : ℕ) (b : Buffer) (n : ℕ)
    → IsConsistent b
    → HoldsIfReady grants n (expand_packet grants fuel b n)
unfolding expand_packet
expand_packet-HoldsIfReady grants fuel b n c = elim (Bool-cases (ltb b.size n || is_null b.block)) [
  | inr fits ↦ ground (arith, fits)
  | inl grows ↦ elim (Option-cases (grow fuel (if b.size == 0 then 1 else b.size) n)) [
    | inl e ↦ rw (grows, e) tt
    | inr (s, e) ↦ elim (Bool-cases (grants s)) [
      | inl y ↦ rw (grows, e, y) (refl, grow-enough fuel _ n s e)
      | inr z ↦ rw (grows, e, z) (s, z)
    ]
  ]
]
