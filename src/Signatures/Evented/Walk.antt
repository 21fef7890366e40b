-- ===== src/Signatures/Evented/Walk.antt =====
-- lib/cuckoo/core/plugins.py, `RunSignatures.run`: the loop over the evented signatures for one call,
-- which takes signatures out of the list that it runs over, and what it does without positions.
use capev.Base.{
  ap, append_assoc, append_empty, arith, get_elem?, length, length-append, List, [], ◌∷◌, ◌++◌,
  none, some, ℕ, zero, suc, ◌+◌, ◌≤◌, ◌≡◌, refl, ◌∙◌, sym, set,
}
use capev.Signatures.Evented.{
  Call, Lists, Match, Methods, Signature, Told, stays, leaves, loop, offer, remove_at, tell,
}

module _ {S : Type 0} (m : Methods S) where
  abbrev pub prepend : Signature S → Lists m → Lists m
  prepend x l = record l { evented_list = x ∷ l.evented_list }

  abbrev pub find : List Match → Lists m → Lists m
  find found l = record l { matched = found ++ l.matched }

  -- A signature that answers leaves the list, and the one after it is not told of the call.
  unfoldable pub walk : Call → List (Signature S) → Lists m
  walk call [] = record { evented_list = []; matched = [] }
  walk call (x ∷ []) = elim (tell m call x) [
    | stays x' ↦ record { evented_list = x' ∷ []; matched = [] }
    | leaves found ↦ record { evented_list = []; matched = found }
  ]
  walk call (x ∷ y ∷ ys) = elim (tell m call x) [
    | stays x' ↦ prepend x' (walk call (y ∷ ys))
    | leaves found ↦ find found (prepend y (walk call ys))
  ]

  get_elem?-append :
      (pre : List (Signature S)) (x : Signature S) (xs : List (Signature S))
      → get_elem? (pre ++ (x ∷ xs)) (length pre) ≡ some x
  get_elem?-append [] x xs = refl
  get_elem?-append (p ∷ pre) x xs = get_elem?-append pre x xs

  get_elem?-past : (pre : List (Signature S)) (n : ℕ) → length pre ≤ n → get_elem? pre n ≡ none
  get_elem?-past [] n h = refl
  get_elem?-past (p ∷ pre) zero h = absurd (omega arith)
  get_elem?-past (p ∷ pre) (suc n) h = get_elem?-past pre n (omega arith)

  set-append :
      (pre : List (Signature S)) (x y : Signature S) (xs : List (Signature S))
      → set (pre ++ (x ∷ xs)) (length pre) y ≡ pre ++ (y ∷ xs)
  set-append [] x y xs = refl
  set-append (p ∷ pre) x y xs = ap (◌∷◌ p) (set-append pre x y xs)

  remove_at-append :
      (pre : List (Signature S)) (x : Signature S) (xs : List (Signature S))
      → remove_at m (length pre) (pre ++ (x ∷ xs)) ≡ pre ++ xs
  unfolding remove_at
  remove_at-append [] x xs = refl
  remove_at-append (p ∷ pre) x xs = ap (◌∷◌ p) (remove_at-append pre x xs)

  -- The lists after a walk that starts behind the signatures `pre`.
  abbrev behind : List (Signature S) → List Match → Lists m → Lists m
  behind pre matched l = record {
    evented_list = pre ++ l.evented_list;
    matched = matched ++ l.matched;
  }

  loop_past :
      (call : Call) (fuel i : ℕ) (l : Lists m)
      → length l.evented_list ≤ i
      → loop m call fuel i l ≡ l
  unfolding loop
  loop_past call zero i l h = refl
  loop_past call (suc fuel) i l h = rw (get_elem?-past l.evented_list i h, loop)

  abbrev pub lists : List (Signature S) → List Match → Lists m
  lists sigs matched = record { evented_list = sigs; matched = matched }

  module _ (call : Call) (fuel : ℕ) (pre xs : List (Signature S)) (x : Signature S)
      (matched : List Match) where
    -- A round at the signature `x`, which stands behind `pre`.
    loop_stays :
        (x' : Signature S)
        → tell m call x ≡ stays x'
        → loop m call (suc fuel) (length pre) (lists (pre ++ (x ∷ xs)) matched)
          ≡ loop m call fuel (length (pre ++ (x' ∷ []))) (lists ((pre ++ (x' ∷ [])) ++ xs) matched)
    unfolding loop
    loop_stays x' e =
        let moved : length (pre ++ (x' ∷ [])) ≡ length pre + 1 =
          omega (arith, length-append pre (x' ∷ [])) in
        rw moved (
          rw (append_assoc pre (x' ∷ []) xs)
            (rw (get_elem?-append pre x xs, loop) (rw (e, loop) (rw (set-append pre x x' xs)))))

    loop_leaves :
        (found : List Match)
        → tell m call x ≡ leaves found
        → loop m call (suc fuel) (length pre) (lists (pre ++ (x ∷ xs)) matched)
          ≡ loop m call fuel (length pre + 1) (lists (pre ++ xs) (matched ++ found))
    unfolding loop
    loop_leaves found e =
        rw (get_elem?-append pre x xs, loop) (rw (e, loop) (rw (remove_at-append pre x xs)))

  pub walk_stays :
      (call : Call) (x x' : Signature S) (xs : List (Signature S))
      → tell m call x ≡ stays x'
      → walk call (x ∷ xs) ≡ prepend x' (walk call xs)
  unfolding walk
  walk_stays call x x' [] e = rw (e, walk)
  walk_stays call x x' (y ∷ ys) e = rw (e, walk)

  behind-prepend :
      (pre : List (Signature S)) (x : Signature S) (matched : List Match) (l : Lists m)
      → behind (pre ++ (x ∷ [])) matched l ≡ behind pre matched (prepend x l)
  behind-prepend pre x matched l = rw (append_assoc pre (x ∷ []) l.evented_list)

  pub walk_leaves :
      (call : Call) (x y : Signature S) (ys : List (Signature S)) (found : List Match)
      → tell m call x ≡ leaves found
      → walk call (x ∷ y ∷ ys) ≡ find found (prepend y (walk call ys))
  unfolding walk
  walk_leaves call x y ys found e = rw (e, walk)

  pub walk_last :
      (call : Call) (x : Signature S) (found : List Match)
      → tell m call x ≡ leaves found
      → walk call (x ∷ []) ≡ lists [] found
  unfolding walk
  walk_last call x found e = rw (e, walk)

  -- The loop from the position behind `pre` does what the walk does.
  abbrev Walks : Call → ℕ → Type 0
  Walks call fuel =
      (pre rest : List (Signature S)) (matched : List Match)
      → length rest ≤ fuel
      → loop m call fuel (length pre) (lists (pre ++ rest) matched)
        ≡ behind pre matched (walk call rest)

  nothing_left :
      (call : Call) (pre : List (Signature S)) (matched : List Match)
      → behind pre matched (walk call []) ≡ lists (pre ++ []) matched
  unfolding walk
  nothing_left call pre matched = rw (append_empty matched)

  module _ (call : Call) (fuel : ℕ) (ih : Walks call fuel) (pre : List (Signature S))
      (x : Signature S) (matched : List Match) where
    told_stays :
        (xs : List (Signature S)) (x' : Signature S)
        → tell m call x ≡ stays x'
        → length xs ≤ fuel
        → loop m call (suc fuel) (length pre) (lists (pre ++ (x ∷ xs)) matched)
          ≡ behind pre matched (walk call (x ∷ xs))
    told_stays xs x' e h =
        loop_stays call fuel pre xs x matched x' e
        ∙ ih (pre ++ (x' ∷ [])) xs matched h
        ∙ behind-prepend pre x' matched (walk call xs)
        ∙ ap (behind pre matched) (sym (walk_stays call x x' xs e))

    told_leaves :
        (xs : List (Signature S)) (found : List Match)
        → tell m call x ≡ leaves found
        → length xs ≤ fuel
        → loop m call (suc fuel) (length pre) (lists (pre ++ (x ∷ xs)) matched)
          ≡ behind pre matched (walk call (x ∷ xs))
    told_leaves [] found e h =
        loop_leaves call fuel pre [] x matched found e
        ∙ loop_past call fuel (length pre + 1) _ (omega (arith, length-append pre []))
        ∙ ap (behind pre matched) (sym (walk_last call x found e))
    told_leaves (y ∷ ys) found e h =
        let moved : length pre + 1 ≡ length (pre ++ (y ∷ [])) =
          omega (arith, length-append pre (y ∷ [])) in
        loop_leaves call fuel pre (y ∷ ys) x matched found e
        ∙ ap (λ i. loop m call fuel i (lists (pre ++ (y ∷ ys)) (matched ++ found))) moved
        ∙ ap (λ l. loop m call fuel (length (pre ++ (y ∷ []))) (lists l (matched ++ found)))
            (sym (append_assoc pre (y ∷ []) ys))
        ∙ ih (pre ++ (y ∷ [])) ys (matched ++ found) (omega arith)
        ∙ behind-prepend pre y (matched ++ found) (walk call ys)
        ∙ ap (lists (pre ++ (y ∷ (walk call ys).evented_list)))
            (append_assoc matched found (walk call ys).matched)
        ∙ ap (behind pre matched) (sym (walk_leaves call x y ys found e))

    told_walk :
        (xs : List (Signature S)) (t : Told m)
        → tell m call x ≡ t
        → length xs ≤ fuel
        → loop m call (suc fuel) (length pre) (lists (pre ++ (x ∷ xs)) matched)
          ≡ behind pre matched (walk call (x ∷ xs))
    told_walk xs (stays x') e h = told_stays xs x' e h
    told_walk xs (leaves found) e h = told_leaves xs found e h

  loop-walk : (call : Call) (fuel : ℕ) → Walks call fuel
  loop-walk call fuel pre [] matched h =
      loop_past call fuel (length pre) _ (omega (arith, length-append pre []))
      ∙ sym (nothing_left call pre matched)
  loop-walk call zero pre (x ∷ rest) matched h = absurd (omega arith)
  loop-walk call (suc fuel) pre (x ∷ rest) matched h =
      told_walk call fuel (loop-walk call fuel) pre x matched rest (tell m call x) refl
        (omega arith)

  pub offer-walk :
      (call : Call) (l : Lists m) → offer m call l ≡ find l.matched (walk call l.evented_list)
  unfolding offer
  offer-walk call l =
      loop-walk call (length l.evented_list) [] l.evented_list l.matched (omega arith)
