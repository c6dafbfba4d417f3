-- ===== src/Prelude/Memory.antt =====
-- Byte strings: std::string, and the memory that packets are copied from and to.
use Prim.Native.Nat.{ℕ, ◌<◌}
use Prim.Native.Char.{code}
use Prim.Native.String.{String}
use mathlib.Core.Path.{◌≡◌, refl}
use mathlib.Core.Logic.{◌≢◌}
use mathlib.Core.Bool.{Bool, true, false, ◌&&◌}
use mathlib.Core.List.{List, [], ◌∷◌, ◌++◌}
use native.Mathlib.Omega.{arith}
use carrot_rpc.Prelude.Tests.{◌==◌}

-- A byte string is a list of numbers; `AllBytes` says that each is below 256.
abbrev pub Bytes : Type 0
Bytes = List ℕ

abbrev pub AllBytes : Bytes → Type 0
AllBytes [] = Unit {0}
AllBytes (b ∷ bs) = (b < 256) × AllBytes bs

-- The characters of an ASCII literal.
unfoldable pub text : String → Bytes
text String.[] = []
text (String.◌∷◌ c s) = code c ∷ text s

unfoldable pub bytes_eq : Bytes → Bytes → Bool
bytes_eq [] [] = true
bytes_eq [] (b ∷ bs) = false
bytes_eq (a ∷ as') [] = false
bytes_eq (a ∷ as') (b ∷ bs) = (a == b) && bytes_eq as' bs

pub bytes_eq→eq : (s t : Bytes) → bytes_eq s t ≡ true → s ≡ t
unfolding bytes_eq
bytes_eq→eq [] [] h = refl
bytes_eq→eq [] (b ∷ bs) h = cc
bytes_eq→eq (a ∷ as') [] h = cc
bytes_eq→eq (a ∷ as') (b ∷ bs) h = ground (arith, bytes_eq→eq as' bs)

pub bytes_eq_refl : (s : Bytes) → bytes_eq s s ≡ true
unfolding bytes_eq
bytes_eq_refl [] = refl
bytes_eq_refl (a ∷ as') = ground (arith, bytes_eq_refl as')

pub AllBytes-append : (s t : Bytes) → AllBytes s → AllBytes t → AllBytes (s ++ t)
AllBytes-append [] t hs ht = ht
AllBytes-append (b ∷ s) t hs ht = (hs.0, AllBytes-append s t hs.1 ht)

-- No byte of the string is the character.
abbrev pub Lacks : ℕ → Bytes → Type 0
Lacks ch [] = Unit {0}
Lacks ch (b ∷ bs) = (b ≢ ch) × Lacks ch bs

pub Lacks-middle : (ch : ℕ) (s t : Bytes) → Lacks ch (s ++ (ch ∷ t)) → ⊥
Lacks-middle ch [] t (differs, _) = differs refl
Lacks-middle ch (b ∷ s) t (_, rest) = Lacks-middle ch s t rest
