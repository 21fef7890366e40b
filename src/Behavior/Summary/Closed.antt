-- ===== src/Behavior/Summary/Closed.antt =====
-- modules/processing/behavior.py, `Summary`: branches that append to the list of all keys or files what they
-- append to one of its parts.
use capev.Base.{
  all, any, any-append, arith, ap, Bool, Bool-cases, List, [], ◌∷◌, ◌++◌, Option, none, some, ◌==◌,
  false, true, inl, inr, map, ℕ, ◌&&◌, ◌||◌, ◌≡◌, refl, ◌∙◌, sym, subst, if◌then◌else◌,
}
use capev.Base.Bytes.{same_bytes}
use capev.Behavior.Calls.{Text}
use capev.Behavior.Marks.{
  Field, Mark, index, marks, keys, read_keys, write_keys, delete_keys, files, read_files,
  write_files, then_int,
}
use capev.Behavior.Summary.Collected.{asks, is_mark}

-- The list that holds the names of the given one besides others; its own for the rest.
abbrev pub whole : Field → Field
whole read_keys = keys
whole write_keys = keys
whole delete_keys = keys
whole read_files = files
whole write_files = files
whole f = f

-- The same on the numbers of the fields.
abbrev pub whole_index : ℕ → ℕ
whole_index i =
    if any (λ j. j == i) (1 ∷ 2 ∷ 3 ∷ [])
    then 0
    else if any (λ j. j == i) (6 ∷ 7 ∷ [])
    then 5
    else i

index-whole : (f : Field) → index (whole f) ≡ whole_index (index f)
index-whole keys = refl
index-whole f = refl

unfoldable pub has_field : ℕ → List Field → Bool
has_field i fs = any (λ g. index g == i) fs

-- With each field the list names the whole of it.
unfoldable pub is_closed : List Field → Bool
unfolding has_field
is_closed fs = all (λ f. has_field (whole_index (index f)) fs) fs

has_field-closed :
    (f : Field) (fs gs : List Field)
    → all (λ g. has_field (whole_index (index g)) fs) gs ≡ true
    → has_field (index f) gs ≡ true
    → has_field (index (whole f)) fs ≡ true
unfolding has_field
has_field-closed f fs [] c h = cc
has_field-closed f fs (g ∷ gs) c h = elim (Bool-cases (index g == index f)) [
  | inl e ↦
      let same : index g ≡ index f = ground arith in
      let found : has_field (whole_index (index g)) fs ≡ true = ground arith in
      subst (λ i. has_field i fs ≡ true) (ap whole_index same ∙ sym (index-whole f)) found
  | inr e ↦ has_field-closed f fs gs (ground arith) (ground arith)
]

any-mark :
    (f : Field) (t : Text) (n : Text) (fs : List Field)
    → any (is_mark f t) (map (λ g. record { field = g; name = n }) fs)
      ≡ (has_field (index f) fs && same_bytes t n)
unfolding has_field
any-mark f t n [] = refl
any-mark f t n (g ∷ fs) = regroup (index g == index f) _ _ _ (any-mark f t n fs)
  where
    regroup : (a b c rest : Bool) → rest ≡ (b && c) → ((a && c) || rest) ≡ ((a || b) && c)
    regroup true b true rest e = refl
    regroup true b false rest e = ground (arith, b)
    regroup false b c rest e = e

-- Where the branch appends to a list, it appends the same to the whole of it.
pub record IsClosed (o : Option (List Mark)) : Type 0 where
  pub implies : (f : Field) (t : Text) → asks f t o ≡ true → asks (whole f) t o ≡ true

pub marks-IsClosed :
    (n : Option Text) (fs : List Field) → is_closed fs ≡ true → IsClosed (some (marks n fs))
unfolding is_closed marks
marks-IsClosed none fs c = record { implies = λ f t e. cc }
marks-IsClosed (some []) fs c = record { implies = λ f t e. cc }
marks-IsClosed (some (x ∷ xs)) fs c = record {
  implies = λ f t h.
      let both : (has_field (index f) fs && same_bytes t (x ∷ xs)) ≡ true =
        sym (any-mark f t (x ∷ xs) fs) ∙ h in
      any-mark (whole f) t (x ∷ xs) fs ∙ ground (arith, has_field-closed f fs fs c);
}

pub append-IsClosed :
    (xs ys : List Mark) → IsClosed (some xs) → IsClosed (some ys) → IsClosed (some (xs ++ ys))
append-IsClosed xs ys hx hy = record {
  implies = λ f t h.
      let either : (any (is_mark f t) xs || any (is_mark f t) ys) ≡ true =
        sym (any-append (is_mark f t) xs ys) ∙ h in
      any-append (is_mark (whole f) t) xs ys ∙ ground (arith, hx.implies f t, hy.implies f t);
}

pub then_int-IsClosed :
    (o : Option ℕ) (g : ℕ → List Mark) → ((n : ℕ) → IsClosed (some (g n))) → IsClosed (then_int o g)
then_int-IsClosed none g h = record { implies = λ f t e. cc }
then_int-IsClosed (some n) g h = h n

pub nothing-IsClosed : IsClosed (some [])
nothing-IsClosed = record { implies = λ f t e. cc }
