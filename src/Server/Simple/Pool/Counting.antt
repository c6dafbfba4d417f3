-- ===== src/Server/Simple/Pool/Counting.antt =====
-- How often an address and a descriptor stand in a collection of connections.
use carrot_rpc.Prelude.{
  ℕ, ◌+◌, ◌≡◌, refl, ap, inl, inr, true, List, [], ◌∷◌, ◌++◌, ◌==◌, if◌then◌else◌, arith,
  Bool-cases,
}
use carrot_rpc.Server.Simple.Pool.{RpcConnection, erase_at, replace}

abbrev pub uses : ℕ → List RpcConnection → ℕ
uses k [] = 0
uses k (c ∷ cs) = (if c.client_fd == k then 1 else 0) + uses k cs

abbrev pub places : ℕ → List RpcConnection → ℕ
places a [] = 0
places a (c ∷ cs) = (if c.address == a then 1 else 0) + places a cs

pub uses-middle :
    (k : ℕ) (before : List RpcConnection) (c : RpcConnection) (after : List RpcConnection)
    → uses k (before ++ (c ∷ after))
      ≡ (if c.client_fd == k then 1 else 0) + uses k (before ++ after)
uses-middle k [] c after = refl
uses-middle k (b ∷ before) c after = omega (arith, uses-middle k before c after)

pub places-middle :
    (a : ℕ) (before : List RpcConnection) (c : RpcConnection) (after : List RpcConnection)
    → places a (before ++ (c ∷ after))
      ≡ (if c.address == a then 1 else 0) + places a (before ++ after)
places-middle a [] c after = refl
places-middle a (b ∷ before) c after = omega (arith, places-middle a before c after)

erase_at-absent : (a : ℕ) (cs : List RpcConnection) → places a cs ≡ 0 → erase_at a cs ≡ cs
erase_at-absent a [] e = refl
erase_at-absent a (c ∷ cs) e = elim (Bool-cases (c.address == a)) [
  | inl y ↦ ground (arith, y)
  | inr z ↦ rw z (ap (◌∷◌ c) (erase_at-absent a cs (ground (arith, z))))
]

-- The connection whose address stands once is the one that is erased.
pub erase_at-middle :
    (before : List RpcConnection) (c : RpcConnection) (after : List RpcConnection)
    → places c.address (before ++ after) ≡ 0
    → erase_at c.address (before ++ (c ∷ after)) ≡ before ++ after
erase_at-middle [] c after e = rw (same c.address) (erase_at-absent c.address after e)
  where
    same : (a : ℕ) → (a == a) ≡ true
    same a = ground arith
erase_at-middle (b ∷ before) c after e = elim (Bool-cases (b.address == c.address)) [
  | inl y ↦ ground (arith, y)
  | inr z ↦ rw z (ap (◌∷◌ b) (erase_at-middle before c after (ground (arith, z))))
]

replace-absent :
    (d : RpcConnection) (cs : List RpcConnection) → places d.address cs ≡ 0 → replace d cs ≡ cs
replace-absent d [] e = refl
replace-absent d (c ∷ cs) e = elim (Bool-cases (c.address == d.address)) [
  | inl y ↦ ground (arith, y)
  | inr z ↦ rw z (ap (◌∷◌ c) (replace-absent d cs (ground (arith, z))))
]

pub replace-middle :
    (before : List RpcConnection) (c d : RpcConnection) (after : List RpcConnection)
    → c.address ≡ d.address
    → places d.address (before ++ after) ≡ 0
    → replace d (before ++ (c ∷ after)) ≡ before ++ (d ∷ after)
replace-middle [] c d after same e = rw (hit c d same) (ap (◌∷◌ d) (replace-absent d after e))
  where
    hit : (c d : RpcConnection) → c.address ≡ d.address → (c.address == d.address) ≡ true
    hit c d same = ground arith
replace-middle (b ∷ before) c d after same e = elim (Bool-cases (b.address == d.address)) [
  | inl y ↦ ground (arith, y)
  | inr z ↦ rw z (ap (◌∷◌ b) (replace-middle before c d after same (ground (arith, z))))
]
