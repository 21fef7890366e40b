-- ===== src/Signatures/Run/Sorted.antt =====
-- lib/cuckoo/core/plugins.py, `RunSignatures.run`: the order and the number of the matches.
use capev.Base.{
  ap, arith, Bool-cases, if◌then◌else◌, inl, inr, leb, List, [], ◌∷◌, ℕ, ◌+◌, ◌≤◌, ◌≡◌, refl, map,
  Option, none, some, true, false, ◌&&◌, ◌∙◌,
}
use capev.Signatures.Version.{StrictVersion}
use capev.Signatures.Evented.{
  Answer, answered, failed, Match, Methods, not_implemented, nothing, Text, Signature,
}
use capev.Signatures.Evented.Once.{count, matches, matches-append}
use capev.Signatures.Run.{
  add, has_version, run_instance, run_result, Analysis, Class, evented_matches, insert, process,
  process_all, run, sort, suits, Overlay, apply_to_class,
}

module _ {A : Type 0} (key : A → ℕ) where
  -- The key is at most that of the first item.
  abbrev pub LeHead : ℕ → List A → Type 0
  LeHead n [] = Unit
  LeHead n (y ∷ ys) = n ≤ key y

  abbrev pub IsSorted : List A → Type 0
  IsSorted [] = Unit
  IsSorted (x ∷ xs) = LeHead (key x) xs × IsSorted xs

  insert-LeHead :
      (n : ℕ) (x : A) (ys : List A) → n ≤ key x → LeHead n ys → LeHead n (insert key x ys)
  unfolding insert
  insert-LeHead n x [] h g = h
  insert-LeHead n x (y ∷ ys) h g = ground arith

  insert-IsSorted : (x : A) (ys : List A) → IsSorted ys → IsSorted (insert key x ys)
  unfolding insert
  insert-IsSorted x [] h = (tt, tt)
  insert-IsSorted x (y ∷ ys) h = elim (Bool-cases (leb (key x) (key y))) [
    | inl e ↦ rw e (let le : key x ≤ key y = ground arith in (le, h))
    | inr e ↦
        let le : key y ≤ key x = ground arith in
        rw e (insert-LeHead (key y) x ys le h.0, insert-IsSorted x ys h.1)
  ]

  sort-IsSorted : (xs : List A) → IsSorted (sort key xs)
  unfolding sort
  sort-IsSorted [] = tt
  sort-IsSorted (x ∷ xs) = insert-IsSorted x (sort key xs) (sort-IsSorted xs)

  -- Sorting changes no count of names.
  module _ (name : A → Text) (k : Text) where
    named : List A → ℕ
    named xs = count k (map name xs)

    named-insert : (x : A) (ys : List A) → named (insert key x ys) ≡ named (x ∷ ys)
    unfolding insert named
    named-insert x [] = refl
    named-insert x (y ∷ ys) = elim (Bool-cases (leb (key x) (key y))) [
      | inl e ↦ rw e
      | inr e ↦ rw e (omega (arith, named-insert x ys))
    ]

    named-sort : (xs : List A) → count k (map name (sort key xs)) ≡ count k (map name xs)
    unfolding sort named
    named-sort [] = refl
    named-sort (x ∷ xs) = named-insert x (sort key xs) ∙ omega (arith, named-sort xs)

module _ {S V : Type 0} (m : Methods S) (v : StrictVersion V) (a : Analysis) (k : Text) where
  -- How many of the classes have the name.
  abbrev pub classes : List (Class S) → ℕ
  classes sigs = count k (map (λ (sig : Class S). sig.name) sigs)

  -- The list is longer by what the signature adds, which has its name.
  abbrev Adds : Class S → Option Match → Type 0
  Adds sig none = Unit
  Adds sig (some match) = match.name ≡ sig.name

  run_result-Adds :
      (sig : Class S) (matched : List Match) (answer : Answer)
      → Adds sig (run_result m v a sig matched answer)
  run_result-Adds sig matched (answered true) = refl
  run_result-Adds sig matched (answered false) = tt
  run_result-Adds sig matched nothing = tt
  run_result-Adds sig matched not_implemented = tt
  run_result-Adds sig matched failed = tt

  run_instance-Adds :
      (sig : Class S) (matched : List Match) (s : Option (Signature S))
      → Adds sig (run_instance m v a sig matched s)
  run_instance-Adds sig matched none = tt
  run_instance-Adds sig matched (some s) =
      elim (Bool-cases (sig.enabled && has_version m v a sig)) [
        | inl e ↦ rw e (run_result-Adds sig matched (sig.run matched))
        | inr e ↦ rw e tt
      ]

  process-Adds : (sig : Class S) (matched : List Match) → Adds sig (process m v a sig matched)
  unfolding process
  process-Adds sig matched = elim (Bool-cases a.has_results) [
    | inl e ↦ rw e (run_instance-Adds sig matched sig.instantiated)
    | inr e ↦ rw e tt
  ]

  -- Between the count before, and one more for a signature of the name.
  record Grows (sig : Class S) (before after : List Match) : Type 0 where
    pub kept : matches k before ≤ matches k after
    pub once : matches k after ≤ matches k before + classes (sig ∷ [])

  add-Grows :
      (sig : Class S) (o : Option Match) (matched : List Match)
      → Adds sig o
      → Grows sig matched (add m v a o matched)
  add-Grows sig none matched h = record { kept = omega arith; once = omega arith }
  add-Grows sig (some match) matched h =
      let one : matches k (match ∷ []) ≡ classes (sig ∷ []) = ap (λ n. count k (n ∷ [])) h in
      record {
        kept = omega (arith, matches-append k matched (match ∷ []));
        once = omega (arith, matches-append k matched (match ∷ []));
      }

  round-Grows :
      (sig : Class S) (matched : List Match)
      → Grows sig matched
          (if suits m v a sig then add m v a (process m v a sig matched) matched else matched)
  round-Grows sig matched = elim (Bool-cases (suits m v a sig)) [
    | inl e ↦ rw e (add-Grows sig (process m v a sig matched) matched (process-Adds sig matched))
    | inr e ↦ rw e record { kept = omega arith; once = omega arith }
  ]

  process_all-bounds :
      (sigs : List (Class S)) (matched : List Match)
      → (matches k matched ≤ matches k (process_all m v a sigs matched))
        × (matches k (process_all m v a sigs matched) ≤ matches k matched + classes sigs)
  unfolding process_all
  process_all-bounds [] matched = (omega arith, omega arith)
  process_all-bounds (sig ∷ sigs) matched =
      let next : List Match =
        if suits m v a sig then add m v a (process m v a sig matched) matched else matched in
      let g = round-Grows sig matched in
      let rest = process_all-bounds sigs next in
      (omega (arith, rest.0, g.kept), omega (arith, rest.1, g.once))

  -- The classes after the overlay.
  abbrev pub overlaid : Overlay S → List (Class S) → List (Class S)
  overlaid overlay complete_list = map (apply_to_class overlay) complete_list

  -- The matches of a run of all signatures, for any overlay of attributes, are sorted by their
  -- severity; of a name there are at least as many as the evented signatures left, and at most as
  -- many more as there are classes with the name after the overlay.
  pub run-IsSorted :
      (overlay : Overlay S) (complete_list : List (Class S))
      → IsSorted (λ (match : Match). match.severity) (run m v a overlay complete_list)
        × (matches k (evented_matches m v a overlay complete_list)
            ≤ matches k (run m v a overlay complete_list))
        × (matches k (run m v a overlay complete_list)
            ≤ matches k (evented_matches m v a overlay complete_list)
              + classes (overlaid overlay complete_list))
  unfolding run
  run-IsSorted overlay complete_list =
      let listed = overlaid overlay complete_list in
      let sorted = sort (λ (sig : Class S). sig.order) listed in
      let before = evented_matches m v a overlay complete_list in
      let all = process_all m v a sorted before in
      let by_severity =
        named-sort (λ (match : Match). match.severity) (λ match. match.name) k all in
      let by_order = named-sort (λ (sig : Class S). sig.order) (λ sig. sig.name) k listed in
      let bounds = process_all-bounds sorted before in
      (
        sort-IsSorted (λ match. match.severity) all,
        omega (arith, by_severity, bounds.0),
        omega (arith, by_severity, by_order, bounds.1),
      )
