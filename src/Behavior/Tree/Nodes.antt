-- ===== src/Behavior/Tree/Nodes.antt =====
-- The entries of a tree in the order of a walk from above, and what `add_node` does to them.
use mathlib.Core.List.{Perm, perm_middle}
use mathlib.Core.List.Perm
use capev.Base.{
  Bool-cases, List, [], any-append, arith, false, inl, inr, refl, true, ◌++◌, ◌==◌, ◌||◌, ◌∷◌, ◌≡◌,
}
use capev.Behavior.Tree.{Added, Entry, Forest, add_node, among_children, append, has_pid, nil, tree}

module _ {D : Type 0} where
  unfoldable pub entries : Forest D → List (Entry D)
  entries nil = []
  entries (tree p children rest) = p ∷ (entries children ++ entries rest)

  pub entries-append : (n : Entry D) (f : Forest D) → Perm (entries (append n f)) (n ∷ entries f)
  unfolding entries append
  entries-append n nil = Perm.refl _
  entries-append n (tree p c r) =
      Perm.trans
        (Perm.cons p
          (Perm.trans (Perm.append_left (entries c) (entries-append n r)) (perm_middle _ _)))
        (Perm.swap n p _)

  -- A result that holds the node besides the entries of the list, or is the list.
  pub record Grows (n : Entry D) (f : Forest D) (r : Added D) : Type 0 where
    pub grown : r.ret ≡ true → Perm (entries r.nodes) (n ∷ entries f)
    pub kept : r.ret ≡ false → r.nodes ≡ f
    pub found : r.ret ≡ has_pid n.parent_id (entries f)

  -- A list under an entry that grew by the node.
  deeper :
      (n p : Entry D) {xs ys : List (Entry D)} (zs : List (Entry D))
      → Perm xs (n ∷ ys)
      → Perm (p ∷ (xs ++ zs)) (n ∷ p ∷ (ys ++ zs))
  deeper n p zs h = Perm.trans (Perm.cons p (Perm.append_right zs h)) (Perm.swap n p _)

  later :
      (n p : Entry D) (xs : List (Entry D)) {ys zs : List (Entry D)}
      → Perm ys (n ∷ zs)
      → Perm (p ∷ (xs ++ ys)) (n ∷ p ∷ (xs ++ zs))
  later n p xs h =
      Perm.trans (Perm.cons p (Perm.trans (Perm.append_left xs h) (perm_middle _ _)))
        (Perm.swap n p _)

  module _ (n p : Entry D) (c r : Forest D) (other : (p.pid == n.parent_id) ≡ false) where
    has_pid-tree :
        has_pid n.parent_id (entries (tree p c r))
        ≡ (has_pid n.parent_id (entries c) || has_pid n.parent_id (entries r))
    unfolding entries
    has_pid-tree = rw (other, any-append (λ x. x.pid == n.parent_id) (entries c) (entries r))

    among_children-Grows :
        (rc rr : Added D)
        → Grows n c rc
        → Grows n r rr
        → Grows n (tree p c r) (among_children p r rc rr)
    unfolding entries among_children
    among_children-Grows rc rr gc gr = elim (Bool-cases rc.ret) [
      | inl e ↦ record {
        grown = λ _. rw e (deeper n p (entries r) (gc.grown e));
        kept = rw e (λ d. cc);
        found = rw has_pid-tree (ground (arith, gc.found));
      }
      | inr e ↦ record {
        grown = rw e (λ d. rw (gc.kept e) (later n p (entries c) (gr.grown d)));
        kept = rw e (λ d. rw (gc.kept e, gr.kept d));
        found = rw has_pid-tree (ground (arith, gc.found, gr.found));
      }
    ]

  pub add_node-Grows : (n : Entry D) (f : Forest D) → Grows n f (add_node n f)
  unfolding entries add_node
  add_node-Grows n nil = record { grown = λ e. cc; kept = λ e. refl; found = refl }
  add_node-Grows n (tree p c r) = elim (Bool-cases (p.pid == n.parent_id)) [
    | inl e ↦ rw e record {
      grown = λ _. deeper n p (entries r) (entries-append n c);
      kept = λ d. cc;
      found = rw e;
    }
    | inr e ↦ rw e (among_children-Grows n p c r e _ _ (add_node-Grows n c) (add_node-Grows n r))
  ]
