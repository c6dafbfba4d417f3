-- ===== src/Os/Descriptors.antt =====
-- What the calls do to the set of open descriptors.
use carrot_rpc.Prelude.{
  ℕ, ◌+◌, ◌-◌, ◌≡◌, refl, ◌∙◌, ◌⊎◌, inl, inr, false, List, [], ◌∷◌, ◌==◌, if◌then◌else◌, arith,
}
use carrot_rpc.Os.{Answer, grants, refuses, Os, remove, count, sys_close}

pub count-remove :
    (k fd : ℕ) (is : List ℕ) → count k (remove fd is) ≡ count k is - (if fd == k then 1 else 0)
count-remove k fd [] = ground arith
count-remove k fd (i ∷ is) = ground (arith, count-remove k fd is)

pub count-present : (fd : ℕ) (is : List ℕ) → (count fd (fd ∷ is) == 0) ≡ false
count-present fd is = ground arith

pub Answer-cases : (a : Answer) → ((n : ℕ) × (a ≡ grants n)) ⊎ ((e : ℕ) × (a ≡ refuses e))
Answer-cases (grants n) = inl (n, refl)
Answer-cases (refuses e) = inr (e, refl)

-- Nothing was opened, closed or closed in vain.
pub record SameDescriptors (os os' : Os) : Type 0 where
  pub counts : (k : ℕ) → count k os'.fds ≡ count k os.fds
  pub wrong : os'.wrong_closes ≡ os.wrong_closes

-- One descriptor was opened, or one more time.
pub record OneMore (fd : ℕ) (os os' : Os) : Type 0 where
  pub counts : (k : ℕ) → count k os'.fds ≡ (if fd == k then 1 else 0) + count k os.fds
  pub wrong : os'.wrong_closes ≡ os.wrong_closes

pub SameDescriptors-trans :
    (a b c : Os) → SameDescriptors a b → SameDescriptors b c → SameDescriptors a c
SameDescriptors-trans a b c s t = record {
  counts = λ k. t.counts k ∙ s.counts k;
  wrong = t.wrong ∙ s.wrong;
}

pub OneMore-after : (fd : ℕ) (a b c : Os) → SameDescriptors a b → OneMore fd b c → OneMore fd a c
OneMore-after fd a b c s t = record {
  counts = λ k. omega (arith, t.counts k, s.counts k);
  wrong = t.wrong ∙ s.wrong;
}

-- A descriptor that was opened is closed again.
pub sys_close-OneMore : (fd : ℕ) (a b : Os) → OneMore fd a b → SameDescriptors a (sys_close fd b)
sys_close-OneMore fd a b o = record {
  counts = λ k. ground (arith, count-remove k fd b.fds, o.counts k);
  wrong = wrong;
}
  where
    there : (count fd b.fds == 0) ≡ false
    there = ground (arith, o.counts fd)

    wrong : (sys_close fd b).wrong_closes ≡ a.wrong_closes
    wrong = rw there o.wrong
