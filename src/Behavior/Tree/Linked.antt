-- ===== src/Behavior/Tree/Linked.antt =====
-- modules/processing/behavior.py, `ProcessTree`: the links of the tree, which are those that the
-- processes name.
use capev.Base.{
  All, Bool, Bool-cases, List, [], ap, arith, inl, inr, keep, not, refl, ◌++◌, ◌==◌, ◌∷◌, ◌≡◌,
  subst, sym,
}
use capev.Behavior.Tree.{
  Added, Entry, Forest, add_node, among_children, append, has_parent, nil, place, roots, run, tree,
}

module _ {D : Type 0} where
  -- The entries of the nodes of a list, without their children.
  unfoldable pub top : Forest D → List (Entry D)
  top nil = []
  top (tree p children rest) = p ∷ top rest

  -- Each child names the process above it as its parent.
  unfoldable pub IsLinked : Forest D → Type 0
  unfolding top
  IsLinked nil = Unit {0}
  IsLinked (tree p children rest) =
      All (λ child. child.parent_id ≡ p.pid) (top children) × IsLinked children × IsLinked rest

  pub top-append : (n : Entry D) (f : Forest D) → top (append n f) ≡ top f ++ (n ∷ [])
  unfolding top append
  top-append n nil = refl
  top-append n (tree p c r) = ap (◌∷◌ p) (top-append n r)

  top-among_children :
      (n p : Entry D) (c r : Forest D) (rc rr : Added D)
      → top rr.nodes ≡ top r
      → top (among_children p r rc rr).nodes ≡ p ∷ top r
  unfolding top among_children
  top-among_children n p c r rc rr e = elim (Bool-cases rc.ret) [
    | inl d ↦ rw d
    | inr d ↦ rw d (ap (◌∷◌ p) e)
  ]

  pub top-add_node : (n : Entry D) (f : Forest D) → top (add_node n f).nodes ≡ top f
  unfolding top add_node
  top-add_node n nil = refl
  top-add_node n (tree p c r) = elim (Bool-cases (p.pid == n.parent_id)) [
    | inl e ↦ rw e
    | inr e ↦ rw e (top-among_children n p c r _ _ (top-add_node n r))
  ]

  All-snoc :
      (P : Entry D → Type 0) (xs : List (Entry D)) (n : Entry D)
      → All P xs
      → P n
      → All P (xs ++ (n ∷ []))
  All-snoc P [] n h pn = (pn, tt)
  All-snoc P (x ∷ xs) n h pn = (h.0, All-snoc P xs n h.1 pn)

  append-IsLinked : (n : Entry D) (f : Forest D) → IsLinked f → IsLinked (append n f)
  unfolding IsLinked append
  append-IsLinked n nil h = (tt, tt, tt)
  append-IsLinked n (tree p c r) h = (h.0, h.1, append-IsLinked n r h.2)

  add_node-IsLinked : (n : Entry D) (f : Forest D) → IsLinked f → IsLinked (add_node n f).nodes
  unfolding IsLinked add_node
  add_node-IsLinked n nil h = tt
  add_node-IsLinked n (tree p c r) h = elim (Bool-cases (p.pid == n.parent_id)) [
    | inl e ↦
        let child : n.parent_id ≡ p.pid = ground arith in
        rw e (
          subst (All (λ q. q.parent_id ≡ p.pid)) (sym (top-append n c))
              (All-snoc _ (top c) n h.0 child),
          append-IsLinked n c h.1,
          h.2,
        )
    | inr e ↦ rw e (
        deeper (add_node n c) (add_node n r) (top-add_node n c) (add_node-IsLinked n c h.1)
          (add_node-IsLinked n r h.2))
  ]
    where
      deeper :
          (rc rr : Added D)
          → top rc.nodes ≡ top c
          → IsLinked rc.nodes
          → IsLinked rr.nodes
          → IsLinked (among_children p r rc rr).nodes
      deeper rc rr e lc lr =
          let all = subst (All (λ q. q.parent_id ≡ p.pid)) (sym e) h.0 in
          elim (Bool-cases rc.ret) [ inl d ↦ rw d (all, lc, h.2) | inr d ↦ rw d (all, lc, lr) ]

  place-IsLinked : (cs : List (Entry D)) (f : Forest D) → IsLinked f → IsLinked (place cs f)
  unfolding place
  place-IsLinked [] f h = h
  place-IsLinked (c ∷ cs) f h = elim (Bool-cases (add_node c f).ret) [
    | inl e ↦ rw e (place-IsLinked cs _ (add_node-IsLinked c f h))
    | inr e ↦ rw e (place-IsLinked cs _ (append-IsLinked c f h))
  ]

  roots-IsLinked : (ps : List (Entry D)) → IsLinked (roots ps)
  unfolding IsLinked roots
  roots-IsLinked [] = tt
  roots-IsLinked (p ∷ ps) = (tt, tt, roots-IsLinked ps)

  -- In the tree of any processes every child names the process above it as its parent.
  run-IsLinked : (same : D → D → Bool) (ps : List (Entry D)) → IsLinked (run same ps)
  unfolding run
  run-IsLinked same ps =
      place-IsLinked (keep (has_parent same ps) ps) _
        (roots-IsLinked (keep (λ p. not (has_parent same ps p)) ps))
