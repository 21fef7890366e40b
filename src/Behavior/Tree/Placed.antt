-- ===== src/Behavior/Tree/Placed.antt =====
-- modules/processing/behavior.py, `ProcessTree.run`: which processes stand at the root.
use mathlib.Core.List.{Perm}
use capev.Base.{
  Bool, Bool-cases, List, [], ap, arith, inl, inr, keep, not, refl, true, ltb, ℕ, ◌∷◌, ◌≡◌, ◌∙◌,
  sym,
}
use capev.Behavior.Tree.{Entry, Forest, add_node, has_parent, has_pid, place, roots, run}
use capev.Behavior.Tree.Nodes.{add_node-Grows, entries}
use capev.Behavior.Tree.Once.{count, count-Perm, entries-roots}
use capev.Behavior.Tree.Linked.{top, top-add_node}

module _ {D : Type 0} where
  -- A process whose parent is in the list stands after one with the parent's id.
  abbrev pub ParentsFirst :
      (same : D → D → Bool) (processes seen : List (Entry D)) → List (Entry D) → Type 0
  ParentsFirst same processes seen [] = Unit
  ParentsFirst same processes seen (p ∷ rest) =
      (has_parent same processes p ≡ true → has_pid p.parent_id seen ≡ true)
      × ParentsFirst same processes (p ∷ seen) rest

  -- Each parent is known when its child is added.
  abbrev Ready : List (Entry D) → List (Entry D) → Type 0
  Ready held [] = Unit
  Ready held (c ∷ cs) = (has_pid c.parent_id held ≡ true) × Ready (c ∷ held) cs

  -- Every process id of the one list is in the other.
  abbrev Within : List (Entry D) → List (Entry D) → Type 0
  Within xs ys = (k : ℕ) → has_pid k xs ≡ true → has_pid k ys ≡ true

  has_pid-count : (k : ℕ) (xs : List (Entry D)) → has_pid k xs ≡ ltb 0 (count k xs)
  has_pid-count k [] = refl
  has_pid-count k (x ∷ xs) = ground (arith, has_pid-count k xs)

  Within-Perm : {xs ys : List (Entry D)} → Perm xs ys → Within ys xs
  Within-Perm {xs} {ys} p k h =
      has_pid-count k xs ∙ rw (count-Perm k p) (sym (has_pid-count k ys)) ∙ h

  Within-cons : (c : Entry D) (xs ys : List (Entry D)) → Within xs ys → Within (c ∷ xs) (c ∷ ys)
  Within-cons c xs ys w k h = ground (arith, w k)

  top-place :
      (cs held : List (Entry D)) (f : Forest D)
      → Within held (entries f)
      → Ready held cs
      → top (place cs f) ≡ top f
  unfolding place
  top-place [] held f w h = refl
  top-place (c ∷ cs) held f w h =
      let g = add_node-Grows c f in
      let found : (add_node c f).ret ≡ true = g.found ∙ w c.parent_id h.0 in
      rw found (
        top-place cs (c ∷ held) (add_node c f).nodes
          (λ k m. Within-Perm (g.grown found) k (Within-cons c held (entries f) w k m)) h.1
        ∙ top-add_node c f)

  top-roots : (ps : List (Entry D)) → top (roots ps) ≡ ps
  unfolding top roots
  top-roots [] = refl
  top-roots (p ∷ ps) = ap (◌∷◌ p) (top-roots ps)

  module _ (same : D → D → Bool) (ps : List (Entry D)) where
    ParentsFirst-Ready :
        (rest seen held : List (Entry D))
        → Within seen held
        → Within (keep (λ p. not (has_parent same ps p)) rest) held
        → ParentsFirst same ps seen rest
        → Ready held (keep (has_parent same ps) rest)
    ParentsFirst-Ready [] seen held v w h = tt
    ParentsFirst-Ready (p ∷ rest) seen held v w h = elim (Bool-cases (has_parent same ps p)) [
      | inl e ↦ rw e (
        v p.parent_id (h.0 e),
        ParentsFirst-Ready rest (p ∷ seen) (p ∷ held) (Within-cons p seen held v)
            (λ k m. later k held (w k (rw e m))) h.1,
      )
      | inr e ↦ rw e (
          ParentsFirst-Ready rest (p ∷ seen) held (λ k m. earlier k m (λ d. w k (rw e d)))
            (λ k m. w k (rw e (later k _ m))) h.1)
    ]
      where
        later : (k : ℕ) (xs : List (Entry D)) → has_pid k xs ≡ true → has_pid k (p ∷ xs) ≡ true
        later k xs m = ground arith

        earlier :
            (k : ℕ)
            → has_pid k (p ∷ seen) ≡ true
            → (has_pid k (p ∷ keep (λ q. not (has_parent same ps q)) rest) ≡ true
                → has_pid k held ≡ true)
            → has_pid k held ≡ true
        earlier k m first = ground (arith, v k)

    -- If every process whose parent is in the list stands after one with the parent's id, then the
    -- roots of the tree are exactly the processes without a parent in the list, in their order.
    pub top-run :
        ParentsFirst same ps [] ps → top (run same ps) ≡ keep (λ p. not (has_parent same ps p)) ps
    unfolding run
    top-run h =
        let orphans = keep (λ p. not (has_parent same ps p)) ps in
        top-place (keep (has_parent same ps) ps) orphans (roots orphans)
          (λ k m. rw (entries-roots orphans) m)
          (ParentsFirst-Ready ps [] orphans (λ k m. cc) (λ k m. m) h)
        ∙ top-roots orphans
