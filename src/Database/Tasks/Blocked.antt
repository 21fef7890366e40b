-- ===== src/Database/Tasks/Blocked.antt =====
-- When `fetch` of lib/cuckoo/core/database.py passes tasks over: after a ban, and behind a task that is
-- bound to another machine.
use capev.Base.{
  ℕ, ◌≡◌, refl, ◌⊎◌, inl, inr, true, false, none, some, List, [], ◌∷◌, arith, All, All-In, In,
  if◌then◌else◌, keep, Bool-cases, keep-In,
}
use capev.Database.Machines.{Machine}
use capev.Database.Tasks.{
  Task, is_eligible, is_pinned_elsewhere, fetch, take_row, FetchFaults, first_ordered, before,
  ban_user_tasks, ban_row, belongs_to,
}
use capev.Database.Tasks.Order.{first_ordered-IsFirst, first_ordered_exists}
use capev.Database.Tasks.Queue.{sound, IsKeyed, fetch-IsFirst}

ban_user_tasks-In :
    (user : ℕ) (t : Task) (ts : List Task)
    → In t (ban_user_tasks user ts)
    → (u : Task) × In u ts × (t ≡ ban_row user u)
unfolding ban_user_tasks
ban_user_tasks-In user t [] h = absurd h
ban_user_tasks-In user t (x ∷ xs) (inl e) = (x, inl refl, e)
ban_user_tasks-In user t (x ∷ xs) (inr i) =
    let (u, j, e) = ban_user_tasks-In user t xs i in (u, inr j, e)

-- After a user's tasks are banned, with distinct ids and no database fault, no fetch returns a
-- task of that user.
pub ban-fetch :
    (user now : ℕ) (m : Machine) (ts ts' : List Task) (t : Task)
    → IsKeyed (ban_user_tasks user ts)
    → fetch sound now m (ban_user_tasks user ts) ≡ (some t, ts')
    → belongs_to user t ≡ false
ban-fetch user now m ts ts' t k h =
    let (r, i, eligible, first, ours, e) = fetch-IsFirst now m (ban_user_tasks user ts) ts' t k h in
    let (u, j, e') = ban_user_tasks-In user r ts i in ground (arith, e, e', eligible)

-- A task bound to another machine that comes before every other eligible task makes fetch return
-- nothing and change nothing.
fetch_blocked :
    (f : FetchFaults) (now : ℕ) (m : Machine) (t : Task) (ts : List Task)
    → In t ts
    → is_eligible m t ≡ true
    → is_pinned_elsewhere m t ≡ true
    → All (λ u. (u ≡ t) ⊎ (before t u ≡ true)) (keep (is_eligible m) ts)
    → fetch f now m ts ≡ (none, ts)
unfolding fetch
fetch_blocked f now m t ts i eligible pinned first =
    let (u, e) =
      first_ordered_exists (keep (is_eligible m) ts) t (keep-In (is_eligible m) t ts i eligible) in
    let (j, best) = first_ordered-IsFirst (keep (is_eligible m) ts) u e in
    go u e (All-In _ u _ first j) (All-In _ t _ best (keep-In (is_eligible m) t ts i eligible))
  where
    go :
        (u : Task)
        → first_ordered (keep (is_eligible m) ts) ≡ some u
        → (u ≡ t) ⊎ (before t u ≡ true)
        → before t u ≡ false
        → take_row f now m (if f.select then none else first_ordered (keep (is_eligible m) ts)) ts
          ≡ (none, ts)
    go u e (inl q) b =
        let elsewhere : is_pinned_elsewhere m u ≡ true = rw q pinned in
        elim (Bool-cases f.select) [ inl c ↦ rw c | inr c ↦ rw c (rw e (rw elsewhere)) ]
    go u e (inr q) b = absurd (cc)
