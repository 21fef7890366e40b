-- ===== src/Database/Machines/Exclusion.antt =====
-- Histories of `lock_machine` and `unlock_machine` calls (lib/cuckoo/core/database.py): a pool is the
-- table with the ids of the machines that callers hold.
use capev.Base.{
  subst, sym, All-map, member, Distinct, ℕ, ◌==◌, String, ◌≡◌, refl, ◌≢◌, inl, inr, Bool, true,
  false, not, Option, none, some, List, [], ◌∷◌, arith, head?, keep, All, All-In, In, if◌then◌else◌,
  Bool-cases, ◌⊎◌,
}
use capev.Database.Sql.{Faults, Outcome, returned, operational_error}
use capev.Database.Machines.{
  commit_unlock, Machine, update_row, has_label, set_locked, lock_machine, unlock_machine,
}
use capev.Database.Machines.Selection.{lock_machine-Fits, lock_machine-table}

-- The table with the ids of the machines that callers hold.
pub record Pool : Type 0 where
  pub machines : List Machine
  pub held : List ℕ

pub data Request : Type 0 where
  lock : Faults → ℕ → Option String → Option String → List String → Request
  unlock : Faults → ℕ → String → Request

abbrev pub without : ℕ → List ℕ → List ℕ
without i held = keep (λ j. not (j == i)) held

hand_out : Outcome (Option Machine) × List Machine → Pool → Pool
hand_out (returned (some m), ms) p = record { machines = ms; held = m.id ∷ p.held }
hand_out (returned none, ms) p = record p { machines = ms }
hand_out (operational_error, ms) p = record p { machines = ms }

-- The caller of `unlock_machine` gives the machine up, whether or not the database followed.
give_up : Option Machine → List ℕ → List ℕ
give_up none held = held
give_up (some m) held = without m.id held

unfoldable pub step : Pool → Request → Pool
unfolding hand_out give_up
step p (lock f now label platform tags) =
    hand_out (lock_machine f now label platform tags p.machines) p
step p (unlock f now label) = record {
  machines = (unlock_machine f now label p.machines).1;
  held = give_up (head? (keep (has_label label) p.machines)) p.held;
}

unfoldable pub run : Pool → List Request → Pool
run p [] = p
run p (r ∷ rs) = run (step p r) rs

-- A row is locked, or nobody holds it.
abbrev pub Guarded : List ℕ → Machine → Type 0
Guarded held m = (m.locked ≡ true) ⊎ (member m.id held ≡ false)

pub record Exclusive (p : Pool) : Type 0 where
  pub distinct : Distinct p.held
  pub guarded : All (Guarded p.held) p.machines

free_not_held :
    (held : List ℕ) (m : Machine) → Guarded held m → m.locked ≡ false → member m.id held ≡ false
free_not_held held m (inl t) free = absurd (ground arith)
free_not_held held m (inr q) free = q

keep_lock : {A B C : Type 0} → A ⊎ B → (B → C) → A ⊎ C
keep_lock (inl a) f = inl a
keep_lock (inr b) f = inr (f b)

update_row-All :
    (P Q : Machine → Type 0) (m : Machine)
    → P m
    → ((r : Machine) → r.id ≢ m.id → Q r → P r)
    → (ms : List Machine) → All Q ms
    → All P (update_row m ms)
unfolding update_row
update_row-All P Q m pm other [] h = tt
update_row-All P Q m pm other (r ∷ rs) h =
    (choose (Bool-cases (r.id == m.id)), update_row-All P Q m pm other rs h.1)
  where
    choose : ((r.id == m.id) ≡ true) ⊎ ((r.id == m.id) ≡ false) → P (if r.id == m.id then m else r)
    choose (inl e) = rw e pm
    choose (inr e) = rw e (other r (ground arith) h.0)

member-without :
    (i j : ℕ) (held : List ℕ) → member j held ≡ false → member j (without i held) ≡ false
member-without i j [] h = refl
member-without i j (k ∷ ks) h = ground (arith, member-without i j ks)

member-without_self : (i : ℕ) (held : List ℕ) → member i (without i held) ≡ false
member-without_self i [] = refl
member-without_self i (k ∷ ks) = ground (arith, member-without_self i ks)

without-Distinct : (i : ℕ) (held : List ℕ) → Distinct held → Distinct (without i held)
without-Distinct i [] h = tt
without-Distinct i (k ∷ ks) h = ground (arith, without-Distinct i ks, member-without i k ks)

lock-Exclusive :
    (p : Pool) (m : Machine) (now : ℕ)
    → In m p.machines
    → m.locked ≡ false
    → Exclusive p
    → Exclusive
        (record { machines = update_row (set_locked true now m) p.machines; held = m.id ∷ p.held })
lock-Exclusive p m now i free v = record {
  distinct =
      (free_not_held p.held m (All-In (Guarded p.held) m p.machines v.guarded i) free, v.distinct);
  guarded =
      update_row-All (Guarded (m.id ∷ p.held)) (Guarded p.held) (set_locked true now m) (inl refl)
        (λ r other g. keep_lock g (λ q. ground arith)) p.machines v.guarded;
}

unlock-Exclusive :
    (p : Pool) (m : Machine) (now : ℕ)
    → Exclusive p
    → Exclusive (record {
      machines = update_row (set_locked false now m) p.machines;
      held = without m.id p.held;
    })
unlock-Exclusive p m now v = record {
  distinct = without-Distinct m.id p.held v.distinct;
  guarded =
      update_row-All (Guarded (without m.id p.held)) (Guarded p.held) (set_locked false now m)
        (inr (member-without_self m.id p.held))
        (λ r other g. keep_lock g (λ q. member-without m.id r.id p.held q)) p.machines v.guarded;
}

leak-Exclusive :
    (p : Pool) (m : Machine) (now : ℕ)
    → Exclusive p
    → Exclusive (record p { machines = update_row (set_locked true now m) p.machines })
leak-Exclusive p m now v = record {
  distinct = v.distinct;
  guarded =
      update_row-All (Guarded p.held) (Guarded p.held) (set_locked true now m) (inl refl)
        (λ r other g. g) p.machines v.guarded;
}

drop-Exclusive : (p : Pool) (i : ℕ) → Exclusive p → Exclusive (record p { held = without i p.held })
drop-Exclusive p i v = record {
  distinct = without-Distinct i p.held v.distinct;
  guarded =
      All-map _ _ (λ r g. keep_lock g (λ q. member-without i r.id p.held q)) p.machines v.guarded;
}

lock-step :
    (p : Pool) (f : Faults) (now : ℕ) (label platform : Option String) (tags : List String)
    → Exclusive p
    → Exclusive (step p (lock f now label platform tags))
unfolding step
lock-step p f now label platform tags v =
    go (lock_machine f now label platform tags p.machines) refl
  where
    table :
        (r : Outcome (Option Machine)) (ms : List Machine)
        → lock_machine f now label platform tags p.machines ≡ (r, ms)
        → Exclusive (record p { machines = ms })
    table r ms e = elim (lock_machine-table f now label platform tags p.machines ms r e) [
      | inl same ↦ subst (λ l. Exclusive (record p { machines = l })) (sym same) v
      | inr (m, i, free, up) ↦
          subst (λ l. Exclusive (record p { machines = l })) (sym up) (leak-Exclusive p m now v)
    ]

    go :
        (r : Outcome (Option Machine) × List Machine)
        → lock_machine f now label platform tags p.machines ≡ r
        → Exclusive (hand_out r p)
    go (returned (some m'), ms) e =
        let (m, i, free, fits, e', up) =
          lock_machine-Fits f now label platform tags p.machines ms m' e in
        subst (λ q. Exclusive q) (ground arith) (lock-Exclusive p m now i free v)
    go (returned none, ms) e = table (returned none) ms e
    go (operational_error, ms) e = table operational_error ms e

unlock-step :
    (p : Pool) (f : Faults) (now : ℕ) (label : String)
    → Exclusive p
    → Exclusive (step p (unlock f now label))
unfolding step unlock_machine
unlock-step p f now label v = go (head? (keep (has_label label) p.machines)) (f.query) (f.commit)
  where
    go :
        (o : Option Machine) (query commit : Bool)
        → Exclusive (record {
          machines =
              (if query
                then (none, p.machines)
                else commit_unlock (record f { commit = commit }) now o p.machines).1;
          held = give_up o p.held;
        })
    go none true commit = v
    go none false commit = v
    go (some m) true commit = drop-Exclusive p m.id v
    go (some m) false true = drop-Exclusive p m.id v
    go (some m) false false = unlock-Exclusive p m now v

step-Exclusive : (p : Pool) (r : Request) → Exclusive p → Exclusive (step p r)
step-Exclusive p (lock f now label platform tags) v = lock-step p f now label platform tags v
step-Exclusive p (unlock f now label) v = unlock-step p f now label v

-- From a pool in which the held machines are distinct and none of them is free, every history of
-- lock_machine and unlock_machine calls, with whatever database faults, keeps it so: no machine
-- is handed out twice before it is unlocked.
pub run-Exclusive : (p : Pool) (rs : List Request) → Exclusive p → Exclusive (run p rs)
unfolding run
run-Exclusive p [] v = v
run-Exclusive p (r ∷ rs) v = run-Exclusive (step p r) rs (step-Exclusive p r v)
