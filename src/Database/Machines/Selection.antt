-- ===== src/Database/Machines/Selection.antt =====
-- What `lock_machine` and `unlock_machine` of lib/cuckoo/core/database.py select.
use capev.Base.{
  ℕ, String, str_eq, ◌≡◌, refl, inl, inr, Bool, true, false, not, ◌&&◌, ◌||◌, Option, none, some,
  List, [], ◌∷◌, arith, head?, keep, All, In, In-keep, In-head, keep-In, head-exists, In-ne,
  is_empty, Option-cases, Bool-cases, ◌⊎◌,
}
use capev.Database.Sql.{Faults, healthy, Outcome, returned, operational_error, truthy}
use capev.Database.Machines.{
  Machine, update_row, has_label, has_platform, has_tag, is_free, filter_tags, filter_by,
  candidates, set_locked, lock_machine,
}

-- An optional text that is missing or empty asks for nothing.
abbrev pub meets : Option String → (String → Machine → Bool) → Machine → Bool
meets none test m = true
meets (some s) test m = str_eq s "" || test s m

-- What the caller of `lock_machine` asked for.
pub record Fits (label platform : Option String) (tags : List String) (m : Machine) : Type 0 where
  pub by_label : meets label has_label m ≡ true
  pub by_platform : meets platform has_platform m ≡ true
  pub by_tags : All (λ t. has_tag t m ≡ true) tags

filter_tags-In :
    (tags : List String) (m : Machine) (ms : List Machine)
    → In m (filter_tags tags ms)
    → In m ms × All (λ t. has_tag t m ≡ true) tags
unfolding filter_tags
filter_tags-In [] m ms h = (h, tt)
filter_tags-In (t ∷ ts) m ms h =
    let (inside, rest) = filter_tags-In ts m (keep (has_tag t) ms) h in
    let (there, tagged) = In-keep (has_tag t) m ms inside in (there, (tagged, rest))

filter_by-In :
    (o : Option String) (test : String → Machine → Bool) (m : Machine) (ms : List Machine)
    → In m (filter_by o test ms)
    → In m ms × (meets o test m ≡ true)
filter_by-In none test m ms h = (h, refl)
filter_by-In (some s) test m ms h = ground (arith, In-keep (test s) m ms)

candidates-Fits :
    (label platform : Option String) (tags : List String) (m : Machine) (ms : List Machine)
    → In m (candidates label platform tags ms)
    → In m ms × Fits label platform tags m
unfolding candidates
candidates-Fits label platform tags m ms h =
    let labelled = filter_by label has_label ms in
    let (a, tagged) = filter_tags-In tags m (filter_by platform has_platform labelled) h in
    let (b, placed) = filter_by-In platform has_platform m labelled a in
    let (c, named) = filter_by-In label has_label m ms b in
    (c, record { by_label = named; by_platform = placed; by_tags = tagged })

-- The row that `lock_machine` takes: free, in the table, and fitting.
pub first_free-Fits :
    (label platform : Option String) (tags : List String) (ms : List Machine) (m : Machine)
    → head? (keep is_free (candidates label platform tags ms)) ≡ some m
    → In m ms × (m.locked ≡ false) × Fits label platform tags m
first_free-Fits label platform tags ms m e =
    let (a, free) = In-keep is_free m (candidates label platform tags ms) (In-head m _ e) in
    let (b, fits) = candidates-Fits label platform tags m ms a in (b, ground arith, fits)

-- A machine that lock_machine returns stood in the table, was free, has the label, the platform
-- and all the tags asked for, and is written back locked as the only changed row.
pub lock_machine-Fits :
    (f : Faults) (now : ℕ) (label platform : Option String) (tags : List String)
    (ms ms' : List Machine) (m' : Machine)
    → lock_machine f now label platform tags ms ≡ (returned (some m'), ms')
    → (m : Machine) × In m ms
      × (m.locked ≡ false)
      × Fits label platform tags m
      × (m' ≡ set_locked true now m)
      × (ms' ≡ update_row m' ms)
unfolding lock_machine
lock_machine-Fits f now label platform tags ms ms' m' h =
    elim (Option-cases (head? (keep is_free (candidates label platform tags ms)))) [
      | inl e ↦ absurd (ground arith)
      | inr (m, e) ↦
          let (a, b, c) = first_free-Fits label platform tags ms m e in
          (m, a, b, c, ground arith, ground arith)
    ]

-- Completeness: a row that fits is among the candidates.
filter_by_complete :
    (o : Option String) (test : String → Machine → Bool) (m : Machine) (ms : List Machine)
    → In m ms
    → meets o test m ≡ true
    → In m (filter_by o test ms)
filter_by_complete none test m ms h p = h
filter_by_complete (some s) test m ms h p = ground (arith, keep-In (test s) m ms)

filter_tags_complete :
    (tags : List String) (m : Machine) (ms : List Machine)
    → In m ms
    → All (λ t. has_tag t m ≡ true) tags
    → In m (filter_tags tags ms)
unfolding filter_tags
filter_tags_complete [] m ms h p = h
filter_tags_complete (t ∷ ts) m ms h p =
    filter_tags_complete ts m (keep (has_tag t) ms) (keep-In (has_tag t) m ms h p.0) p.1

candidates_complete :
    (label platform : Option String) (tags : List String) (m : Machine) (ms : List Machine)
    → In m ms
    → Fits label platform tags m
    → In m (candidates label platform tags ms)
unfolding candidates
candidates_complete label platform tags m ms h p =
    filter_tags_complete tags m _
      (filter_by_complete platform has_platform m _
        (filter_by_complete label has_label m ms h p.by_label) p.by_platform)
      p.by_tags

-- Selecting by a label together with a platform or with tags is refused.
abbrev pub consistent : Option String → Option String → List String → Bool
consistent label platform tags = not (truthy label && (truthy platform || not (is_empty tags)))

-- With no database fault and consistent criteria, lock_machine hands out a machine whenever some
-- free machine of the table fits.
pub lock_machine_available :
    (now : ℕ) (label platform : Option String) (tags : List String) (ms : List Machine)
    (m : Machine)
    → consistent label platform tags ≡ true
    → In m ms
    → m.locked ≡ false
    → Fits label platform tags m
    → (m' : Machine) × (lock_machine healthy now label platform tags ms
        ≡ (returned (some (set_locked true now m')), update_row (set_locked true now m') ms))
unfolding lock_machine
lock_machine_available now label platform tags ms m c i free fits =
    let found = candidates_complete label platform tags m ms i fits in
    let (m', e) =
      head-exists (keep is_free (candidates label platform tags ms)) m
        (keep-In is_free m _ found (ground arith)) in
    (m', ground (arith, In-ne m (candidates label platform tags ms) found))

abbrev pub hands_out : Outcome (Option Machine) → Bool
hands_out (returned (some m)) = true
hands_out (returned none) = false
hands_out operational_error = false

-- If lock_machine hands out no machine and no refresh failed, the table is unchanged.
lock_machine_unchanged :
    (f : Faults) (now : ℕ) (label platform : Option String) (tags : List String)
    (ms ms' : List Machine) (r : Outcome (Option Machine))
    → lock_machine f now label platform tags ms ≡ (r, ms')
    → hands_out r ≡ false
    → f.refresh ≡ false
    → ms' ≡ ms
unfolding lock_machine
lock_machine_unchanged f now label platform tags ms ms' r h e good = ground arith

-- In all cases `lock_machine` leaves the table as it is, or writes one free row back as locked.
pub lock_machine-table :
    (f : Faults) (now : ℕ) (label platform : Option String) (tags : List String)
    (ms ms' : List Machine) (r : Outcome (Option Machine))
    → lock_machine f now label platform tags ms ≡ (r, ms')
    → (ms' ≡ ms)
      ⊎ ((m : Machine) × In m ms
          × (m.locked ≡ false)
          × (ms' ≡ update_row (set_locked true now m) ms))
unfolding lock_machine
lock_machine-table f now label platform tags ms ms' r h =
    elim (Option-cases (head? (keep is_free (candidates label platform tags ms)))) [
      | inl e ↦ inl (ground arith)
      | inr (m, e) ↦
          let (i, free, fits) = first_free-Fits label platform tags ms m e in
          elim (Bool-cases (asks_wrongly || f.query || f.commit)) [
            | inl bad ↦ inl (ground arith)
            | inr good ↦ inr (m, i, free, ground (arith, nonempty m e))
          ]
    ]
  where
    nonempty :
        (m : Machine)
        → head? (keep is_free (candidates label platform tags ms)) ≡ some m
        → is_empty (candidates label platform tags ms) ≡ false
    nonempty m e = In-ne m _ (In-keep is_free m _ (In-head m _ e)).0

    asks_wrongly : Bool
    asks_wrongly = truthy label && (truthy platform || not (is_empty tags))
