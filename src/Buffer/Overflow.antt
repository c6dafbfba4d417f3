-- ===== src/Buffer/Overflow.antt =====
-- Where the requested size is above 2^31, the doubling wraps around and the loop never ends.
use carrot_rpc.Prelude.{
  ℕ, zero, suc, ◌*◌, ◌^◌, ◌≤◌, ◌<◌, ◌≡◌, refl, ◌⊎◌, inl, inr, Bool, none, some, arith, ap, ◌∙◌, ltb,
  Bool-cases, Option-cases, ◌==◌, if◌then◌else◌, ◌||◌,
}
use Prim.Native.Nat.pow
use carrot_rpc.Packet.{u32}
use carrot_rpc.Buffer.{
  Buffer, Expanded, ready, failed, looping, grow, expand_packet, is_null, double_pow,
}

-- The powers of two up to 2^31.
abbrev pub IsPowerOfTwo : ℕ → Type 0
IsPowerOfTwo s = (j : ℕ) × (s * 2 ^ j ≡ 2 ^ 31)

grow_zero : (fuel n : ℕ) → 0 < n → grow fuel 0 n ≡ none
unfolding grow
grow_zero zero n h = refl
grow_zero (suc fuel) n h = ground (arith, grow_zero fuel n)

le_power : (s j : ℕ) → s * 2 ^ j ≡ 2 ^ 31 → s ≤ 2 ^ 31
le_power s zero e = omega (arith, pow.zero 2, ap (λ (t : ℕ). s * t) (pow.zero 2))
le_power s (suc j) e = omega (arith, le_power (s * 2) j (double_pow s j ∙ e))

grow_wraps : (fuel size n : ℕ) → IsPowerOfTwo size → 2 ^ 31 < n → grow fuel size n ≡ none
unfolding grow
grow_wraps zero size n p h = refl
grow_wraps (suc fuel) size n (zero, e) h = ground (arith, pow.zero 2, grow_zero fuel n)
grow_wraps (suc fuel) size n (suc j, e) h = ground (
  arith,
  grow_wraps fuel (size * 2) n (j, double_pow size j ∙ e) h,
  le_power (size * 2) j (double_pow size j ∙ e),
)

-- A size that doubling in a uint32_t can reach from 1.
abbrev pub IsReachable : ℕ → Type 0
IsReachable s = (s ≡ 0) ⊎ IsPowerOfTwo s

double-IsReachable : (s : ℕ) → IsReachable s → IsReachable (u32 (s * 2))
double-IsReachable s (inl z) = inl (omega arith)
double-IsReachable s (inr (zero, p)) = inl (omega (arith, ap (λ (t : ℕ). s * t) (pow.zero 2)))
double-IsReachable s (inr (suc j, p)) = inr (j, rw small (double_pow s j ∙ p))
  where
    small : u32 (s * 2) ≡ s * 2
    small = omega (arith, le_power (s * 2) j (double_pow s j ∙ p))

grow-IsReachable :
    (fuel size n s : ℕ) → IsReachable size → grow fuel size n ≡ some s → IsReachable s
unfolding grow
grow-IsReachable zero size n s p e = cc
grow-IsReachable (suc fuel) size n s p e = elim (Bool-cases (ltb size n)) [
  | inl more ↦
      grow-IsReachable fuel (u32 (size * 2)) n s (double-IsReachable size p) (ground (arith, more))
  | inr done ↦ let same : size ≡ s = ground (arith, done) in rw same at p
]

start : (s : ℕ) → IsReachable s → IsReachable (if s == 0 then 1 else s)
start s p = elim (Bool-cases (s == 0)) [ inl z ↦ rw z (inr (31, omega arith)) | inr z ↦ rw z p ]

-- The size is 0 or a power of two in whatever buffer a finished expansion leaves.
abbrev pub LeavesPower : Expanded → Type 0
LeavesPower (ready c) = IsReachable c.size
LeavesPower (failed c) = IsReachable c.size
LeavesPower looping = Unit {0}

-- If the size of a buffer is 0 or a power of two up to 2^31, it still is when expand_packet ends, in
-- success or failure and whatever the request.
pub expand_packet-LeavesPower :
    (grants : ℕ → Bool) (fuel : ℕ) (b : Buffer) (n : ℕ)
    → IsReachable b.size
    → LeavesPower (expand_packet grants fuel b n)
unfolding expand_packet
expand_packet-LeavesPower grants fuel b n p = elim (Bool-cases (ltb b.size n || is_null b.block)) [
  | inr fits ↦ rw fits p
  | inl grows ↦ elim (Option-cases (grow fuel (if b.size == 0 then 1 else b.size) n)) [
    | inl e ↦ rw (grows, e) tt
    | inr (s, e) ↦ elim (Bool-cases (grants s)) [
      | inl y ↦ rw (grows, e, y) (grow-IsReachable fuel _ n s (start b.size p) e)
      | inr z ↦ rw (grows, e, z) (grow-IsReachable fuel _ n s (start b.size p) e)
    ]
  ]
]

-- A buffer whose size is 0 or a power of two, as expand_packet leaves it, never fits a request above
-- 2^31: whatever the number of rounds, the loop of expand_packet is still running.
pub expand_packet_loops :
    (grants : ℕ → Bool) (fuel : ℕ) (b : Buffer) (n : ℕ)
    → IsReachable b.size
    → 2 ^ 31 < n
    → expand_packet grants fuel b n ≡ looping
unfolding expand_packet
expand_packet_loops grants fuel b n (inl z) h =
    ground (arith, grow_wraps fuel 1 n (31, omega arith) h)
expand_packet_loops grants fuel b n (inr (j, e)) h = elim (Bool-cases (b.size == 0)) [
  | inl z ↦ ground (arith, z, grow_wraps fuel 1 n (31, omega arith) h)
  | inr z ↦ ground (arith, z, grow_wraps fuel b.size n (j, e) h, le_power b.size j e)
]
