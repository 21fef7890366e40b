-- ===== src/Behavior/Tree/Once.antt =====
-- modules/processing/behavior.py, `ProcessTree`: each process stands once in the list and once in
-- the tree.
use mathlib.Core.List.{Perm, perm_middle}
use mathlib.Core.List.Perm
use mathlib.Core.List.{Permᴰ}
use mathlib.Core.Logic.{∥∥₁_elim}
use capev.Base.{
  any-append, Bool, Bool-cases, ℕ, ap, ◌+◌, ◌∙◌, subst, List, [], arith, false, if◌then◌else◌, inl,
  inr, keep, not, refl, true, ◌++◌, ◌==◌, ◌||◌, ◌∷◌, ◌≡◌,
}
use capev.Behavior.Tree.{
  Entry, Forest, add_node, append, event_apicall, has_parent, place, roots, collect, run, has_pid,
}
use capev.Behavior.Tree.Nodes.{add_node-Grows, entries, entries-append}

module _ {D : Type 0} where
  pub entries-roots : (ps : List (Entry D)) → entries (roots ps) ≡ ps
  unfolding entries roots
  entries-roots [] = refl
  entries-roots (p ∷ ps) = ap (◌∷◌ p) (entries-roots ps)

  -- One round of the second loop adds the process.
  round :
      (p : Entry D) (f : Forest D)
      → Perm
          (entries (if (add_node p f).ret then (add_node p f).nodes else append p f))
          (p ∷ entries f)
  round p f = elim (Bool-cases (add_node p f).ret) [
    | inl e ↦ rw e ((add_node-Grows p f).grown e)
    | inr e ↦ rw e (entries-append p f)
  ]

  entries-place :
      (cs : List (Entry D)) (f : Forest D) → Perm (entries (place cs f)) (cs ++ entries f)
  unfolding place
  entries-place [] f = Perm.refl _
  entries-place (c ∷ cs) f =
      Perm.trans (entries-place cs _)
        (Perm.trans (Perm.append_left cs (round c f)) (perm_middle cs (entries f)))

  keep-partition :
      (t : Entry D → Bool) (ps : List (Entry D)) → Perm (keep t ps ++ keep (λ p. not (t p)) ps) ps
  keep-partition t [] = Perm.refl _
  keep-partition t (p ∷ ps) = elim (Bool-cases (t p)) [
    | inl e ↦ rw e (Perm.cons p (keep-partition t ps))
    | inr e ↦ rw e (Perm.trans (perm_middle (keep t ps) _) (Perm.cons p (keep-partition t ps)))
  ]

  pub entries-run : (same : D → D → Bool) (ps : List (Entry D)) → Perm (entries (run same ps)) ps
  unfolding run
  entries-run same ps = Perm.trans (entries-place (keep (has_parent same ps) ps) _) (
      rw (entries-roots (keep (λ p. not (has_parent same ps p)) ps))
        (keep-partition (has_parent same ps) ps))

  -- How many of the entries have the process id.
  abbrev pub count : ℕ → List (Entry D) → ℕ
  count k [] = 0
  count k (e ∷ es) = (if e.pid == k then 1 else 0) + count k es

  count-Permᴰ : (k : ℕ) {xs ys : List (Entry D)} → Permᴰ xs ys → count k xs ≡ count k ys
  count-Permᴰ k Permᴰ.nil = refl
  count-Permᴰ k (Permᴰ.cons e d) = rw e (rw (count-Permᴰ k d))
  count-Permᴰ k (Permᴰ.swap e f) = rw e (rw f (omega arith))
  count-Permᴰ k (Permᴰ.trans d e) = count-Permᴰ k d ∙ count-Permᴰ k e

  pub count-Perm : (k : ℕ) {xs ys : List (Entry D)} → Perm xs ys → count k xs ≡ count k ys
  count-Perm k p = ∥∥₁_elim p (hlevel) (count-Permᴰ k)

  count-append :
      (k : ℕ) (e : Entry D) (es : List (Entry D))
      → count k (es ++ (e ∷ [])) ≡ count k es + (if e.pid == k then 1 else 0)
  count-append k e [] = omega arith
  count-append k e (x ∷ es) = omega (arith, count-append k e es)

  -- No process id stands twice.
  abbrev IsOnce : List (Entry D) → Type 0
  IsOnce es = (k : ℕ) → count k es ≡ (if has_pid k es then 1 else 0)

  has_pid-append :
      (k : ℕ) (e : Entry D) (es : List (Entry D))
      → has_pid k (es ++ (e ∷ [])) ≡ (has_pid k es || e.pid == k)
  has_pid-append k e es = any-append (λ x. x.pid == k) es (e ∷ []) ∙ ground arith

  has_pid-event_apicall :
      (k : ℕ) (p : Entry D) (ps : List (Entry D))
      → has_pid k (event_apicall p ps) ≡ (has_pid k ps || p.pid == k)
  unfolding event_apicall
  has_pid-event_apicall k p ps = elim (Bool-cases (has_pid p.pid ps)) [
    | inl old ↦ rw old (known (p.pid == k) refl old)
    | inr new ↦ rw new (has_pid-append k p ps)
  ]
    where
      known :
          (b : Bool)
          → (p.pid == k) ≡ b
          → has_pid p.pid ps ≡ true
          → has_pid k ps ≡ (has_pid k ps || b)
      known true e old =
          let same : p.pid ≡ k = ground arith in
          ground (arith, subst (λ j. has_pid j ps ≡ true) same old)
      known false e old = ground arith

  event_apicall-IsOnce :
      (p : Entry D) (ps : List (Entry D)) → IsOnce ps → IsOnce (event_apicall p ps)
  unfolding event_apicall
  event_apicall-IsOnce p ps h k = elim (Bool-cases (has_pid p.pid ps)) [
    | inl old ↦ rw old (h k)
    | inr new ↦ rw new (added (p.pid == k) refl new)
  ]
    where
      added :
          (b : Bool)
          → (p.pid == k) ≡ b
          → has_pid p.pid ps ≡ false
          → count k (ps ++ (p ∷ [])) ≡ (if has_pid k (ps ++ (p ∷ [])) then 1 else 0)
      added true e new =
          let same : p.pid ≡ k = ground arith in
          ground (
            arith,
            count-append k p ps,
            has_pid-append k p ps,
            h k,
            subst (λ j. has_pid j ps ≡ false) same new,
          )
      added false e new = ground (arith, count-append k p ps, has_pid-append k p ps, h k)

  collect-IsOnce : (es ps : List (Entry D)) → IsOnce ps → IsOnce (collect es ps)
  unfolding collect
  collect-IsOnce [] ps h = h
  collect-IsOnce (e ∷ es) ps h = collect-IsOnce es _ (event_apicall-IsOnce e ps h)

  has_pid-collect :
      (k : ℕ) (es ps : List (Entry D)) → has_pid k (collect es ps) ≡ (has_pid k ps || has_pid k es)
  unfolding collect
  has_pid-collect k [] ps = ground arith
  has_pid-collect k (e ∷ es) ps =
      ground (arith, has_pid-collect k es (event_apicall e ps), has_pid-event_apicall k e ps)

  -- For all logged calls, a process id stands in the tree exactly once if a process with that id
  -- made a call, and not at all otherwise.
  pub run-collect :
      (same : D → D → Bool) (calls : List (Entry D)) (k : ℕ)
      → count k (entries (run same (collect calls []))) ≡ (if has_pid k calls then 1 else 0)
  run-collect same calls k =
      count-Perm k (entries-run same (collect calls []))
      ∙ collect-IsOnce calls [] (λ j. refl) k
      ∙ ap (λ b. if b then 1 else 0) (has_pid-collect k calls [])
