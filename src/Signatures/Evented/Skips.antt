-- ===== src/Signatures/Evented/Skips.antt =====
-- lib/cuckoo/core/plugins.py, `RunSignatures.run`: what an answer does to the signature that stands next
-- in the list, at any position of the loop.
use capev.Base.{
  ap, append_assoc, List, [], ◌∷◌, ◌++◌, ◌≡◌, refl, ◌∙◌, sym, Bool, true, false, arith,
}
use capev.Signatures.Evented.{
  Call, Lists, Match, Methods, Signature, Told, stays, leaves, offer, tell,
}
use capev.Signatures.Evented.Walk.{prepend, find, walk, lists, walk_stays, walk_leaves, offer-walk}

module _ {S : Type 0} (m : Methods S) (call : Call) where
  -- Whether the loop, run over the signatures of the list, tells the one that stands behind them: not
  -- if the last of them is told of the call and answers.
  abbrev pub reaches_next : List (Signature S) → Bool
  reaches_next [] = true
  reaches_next (x ∷ []) = elim (tell m call x) [ stays x' ↦ true | leaves found ↦ false ]
  reaches_next (x ∷ y ∷ ys) = elim (tell m call x) [
    | stays x' ↦ reaches_next (y ∷ ys)
    | leaves found ↦ reaches_next ys
  ]

  -- The lists after one part, and after the part behind it.
  abbrev pub joined : Lists m → Lists m → Lists m
  joined l l' = record {
    evented_list = l.evented_list ++ l'.evented_list;
    matched = l.matched ++ l'.matched;
  }

  walk-joined :
      (pre rest : List (Signature S))
      → reaches_next pre ≡ true
      → walk m call (pre ++ rest) ≡ joined (walk m call pre) (walk m call rest)
  unfolding walk
  walk-joined [] rest h = refl
  walk-joined (x ∷ []) rest h = go (tell m call x) refl
    where
      go :
          (t : Told m)
          → tell m call x ≡ t
          → walk m call (x ∷ rest) ≡ joined (walk m call (x ∷ [])) (walk m call rest)
      go (stays x') e = rw (e, walk) (walk_stays m call x x' rest e)
      go (leaves found) e = absurd (ground (arith, e))
  walk-joined (x ∷ y ∷ ys) rest h =
      go (tell m call x) refl (walk-joined (y ∷ ys) rest) (walk-joined ys rest)
    where
      go :
          (t : Told m)
          → tell m call x ≡ t
          → (reaches_next (y ∷ ys) ≡ true
              → walk m call (y ∷ (ys ++ rest)) ≡ joined (walk m call (y ∷ ys)) (walk m call rest))
          → (reaches_next ys ≡ true
              → walk m call (ys ++ rest) ≡ joined (walk m call ys) (walk m call rest))
          → walk m call (x ∷ y ∷ (ys ++ rest))
            ≡ joined (walk m call (x ∷ y ∷ ys)) (walk m call rest)
      go (stays x') e one two =
          walk_stays m call x x' (y ∷ (ys ++ rest)) e
          ∙ ap (prepend m x') (one (rw (e, reaches_next) at h))
          ∙ ap (λ l. joined l (walk m call rest)) (sym (walk_stays m call x x' (y ∷ ys) e))
      go (leaves found) e one two =
          let later = walk m call rest in
          let skipped = walk m call ys in
          walk_leaves m call x y (ys ++ rest) found e
          ∙ ap (λ l. find m found (prepend m y l)) (two (rw (e, reaches_next) at h))
          ∙ ap (lists m (y ∷ (skipped.evented_list ++ later.evented_list)))
              (sym (append_assoc found skipped.matched later.matched))
          ∙ ap (λ l. joined l later) (sym (walk_leaves m call x y ys found e))

  offer-joined :
      (pre rest : List (Signature S)) (matched : List Match)
      → reaches_next pre ≡ true
      → offer m call (lists m (pre ++ rest) matched)
        ≡ joined (offer m call (lists m pre matched)) (offer m call (lists m rest []))
  offer-joined pre rest matched h =
      let first = walk m call pre in
      let second = walk m call rest in
      let later : offer m call (lists m rest []) ≡ second = offer-walk m call (lists m rest []) in
      offer-walk m call (lists m (pre ++ rest) matched)
      ∙ ap (find m matched) (walk-joined pre rest h)
      ∙ ap (lists m (first.evented_list ++ second.evented_list))
          (sym (append_assoc matched first.matched second.matched))
      ∙ ap (λ l. joined l second) (sym (offer-walk m call (lists m pre matched)))
      ∙ ap (joined (offer m call (lists m pre matched))) (sym later)

  offer_head :
      (x y : Signature S) (ys : List (Signature S)) (found : List Match)
      → tell m call x ≡ leaves found
      → offer m call (lists m (x ∷ y ∷ ys) [])
        ≡ find m found (prepend m y (offer m call (lists m ys [])))
  offer_head x y ys found e =
      offer-walk m call (lists m (x ∷ y ∷ ys) [])
      ∙ walk_leaves m call x y ys found e
      ∙ ap (λ l. find m found (prepend m y l)) (sym (offer-walk m call (lists m ys [])))

  -- If a signature at any position of the list is told of a call and answers, it leaves the list of
  -- evented signatures with its match, if any; the signature after it stays as it is and is not
  -- told of the call, and those before and those after the two are told as if they stood alone.
  pub offer_skips :
      (pre : List (Signature S)) (x y : Signature S) (ys : List (Signature S))
      (matched found : List Match)
      → reaches_next pre ≡ true
      → tell m call x ≡ leaves found
      → offer m call (lists m (pre ++ (x ∷ y ∷ ys)) matched)
        ≡ joined
            (offer m call (lists m pre matched))
            (find m found (prepend m y (offer m call (lists m ys []))))
  offer_skips pre x y ys matched found h e =
      offer-joined pre (x ∷ y ∷ ys) matched h
      ∙ ap (joined (offer m call (lists m pre matched))) (offer_head x y ys found e)
