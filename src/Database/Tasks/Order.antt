-- ===== src/Database/Tasks/Order.antt =====
-- The row that `fetch` of lib/cuckoo/core/database.py looks at, by priority and submission time.
use capev.Base.{
  ◌≡◌, refl, ◌⊎◌, inl, inr, true, false, Option, none, some, List, [], ◌∷◌, arith, All, In,
  if◌then◌else◌, Option-cases, subst, sym, All-map,
}
use capev.Database.Tasks.{Task, before, first_ordered}

-- No row of the list comes strictly before `t`.
abbrev pub IsFirst : Task → List Task → Type 0
IsFirst t ts = All (λ u. before u t ≡ false) ts

before_trans : (a b c : Task) → before a b ≡ false → before b c ≡ false → before a c ≡ false
before_trans a b c h k = ground arith

before-asym : (a b : Task) → before a b ≡ true → before b a ≡ false
before-asym a b h = ground arith

before_irrefl : (a : Task) → before a a ≡ false
before_irrefl a = ground arith

first_ordered-none : (ts : List Task) → first_ordered ts ≡ none → ts ≡ []
unfolding first_ordered
first_ordered-none [] e = refl
first_ordered-none (x ∷ xs) e = ground (arith, Option-cases (first_ordered xs))

-- The first row of a tail, and the row before the tail.
combine-IsFirst :
    (x u t : Task) (xs : List Task)
    → In u xs × IsFirst u xs
    → ((before u x ≡ true) × (t ≡ u)) ⊎ ((before u x ≡ false) × (t ≡ x))
    → In t (x ∷ xs) × IsFirst t (x ∷ xs)
combine-IsFirst x u t xs (i, first) (inl (b, e)) =
    subst (λ v. In v (x ∷ xs) × IsFirst v (x ∷ xs)) (sym e) (inr i, (before-asym u x b, first))
combine-IsFirst x u t xs (i, first) (inr (b, e)) =
    subst (λ v. In v (x ∷ xs) × IsFirst v (x ∷ xs)) (sym e)
      (inl refl, (before_irrefl x, All-map _ _ (λ v h. before_trans v u x h b) xs first))

pub first_ordered-IsFirst :
    (ts : List Task) (t : Task) → first_ordered ts ≡ some t → In t ts × IsFirst t ts
unfolding first_ordered
first_ordered-IsFirst [] t e = cc
first_ordered-IsFirst (x ∷ xs) t e = go (first_ordered xs) refl (first_ordered-IsFirst xs)
  where
    go :
        (o : Option Task)
        → first_ordered xs ≡ o
        → ((u : Task) → first_ordered xs ≡ some u → In u xs × IsFirst u xs)
        → In t (x ∷ xs) × IsFirst t (x ∷ xs)
    go none q ih =
        let is_x : t ≡ x = ground arith in
        (inl is_x, rw (is_x, first_ordered-none xs q) (before_irrefl x, tt))
    go (some u) q ih = combine-IsFirst x u t xs (ih u q) (ground arith)

pub first_ordered_exists :
    (ts : List Task) (t : Task) → In t ts → (u : Task) × (first_ordered ts ≡ some u)
unfolding first_ordered
first_ordered_exists [] t i = absurd i
first_ordered_exists (x ∷ xs) t i = elim (Option-cases (first_ordered xs)) [
  | inl q ↦ (x, ground arith)
  | inr (u, q) ↦ (if before u x then u else x, ground arith)
]
