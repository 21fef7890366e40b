-- ===== src/Machinery/Acquire.antt =====
-- What `acquire` of lib/cuckoo/common/abstracts.py asks the database for.
use capev.Base.{
  ℕ, ◌≡◌, refl, String, Bool, true, false, Option, none, some, List, [], arith, In, if◌then◌else◌,
}
use capev.Database.Sql.{healthy, Outcome, returned, truthy}
use capev.Database.Machines.{Machine, set_locked, update_row, has_platform, lock_machine}
use capev.Database.Machines.Selection.{
  Fits, meets, consistent, lock_machine_available, lock_machine-Fits,
}
use capev.Machinery.{acquire}

-- What `acquire` looks for: the machine id alone if it is given, else the platform and the tags.
abbrev pub Suits : Option String → Option String → List String → Machine → Type 0
Suits machine_id platform tags m =
    if truthy machine_id then Fits machine_id none [] m else Fits none platform tags m

-- A successful acquisition: the machine was free, suits, and is written back locked.
abbrev pub Acquires :
    ℕ → (Machine → Type 0) → List Machine → Outcome (Option Machine) × List Machine → Type 0
Acquires now P ms r =
    (m : Machine) × In m ms
    × (m.locked ≡ false)
    × P m
    × (r ≡ (returned (some (set_locked true now m)), update_row (set_locked true now m) ms))

lock-Acquires :
    (now : ℕ) (label platform : Option String) (tags : List String) (ms : List Machine)
    (m : Machine)
    → consistent label platform tags ≡ true
    → In m ms
    → m.locked ≡ false
    → Fits label platform tags m
    → Acquires now (Fits label platform tags) ms (lock_machine healthy now label platform tags ms)
lock-Acquires now label platform tags ms m c i free fits =
    let (m', e) = lock_machine_available now label platform tags ms m c i free fits in
    let (u, j, f, p, e', up) = lock_machine-Fits healthy now label platform tags ms _ _ e in
    (u, j, f, p, ground arith)

widen :
    (now : ℕ) (P Q : Machine → Type 0) (ms : List Machine)
    (r : Outcome (Option Machine) × List Machine)
    → ((m : Machine) → P m → Q m)
    → Acquires now P ms r
    → Acquires now Q ms r
widen now P Q ms r f (m, i, free, p, e) = (m, i, free, f m p, e)

no_platform : (o : Option String) (m : Machine) → truthy o ≡ false → meets o has_platform m ≡ true
no_platform none m e = refl
no_platform (some s) m e = ground arith

-- With no database fault, acquire succeeds whenever a free machine of the table suits, for every
-- combination of criteria, and the machine that it takes was free and suits.
pub acquire_available :
    (now : ℕ) (machine_id platform : Option String) (tags : List String) (ms : List Machine)
    (m : Machine)
    → In m ms
    → m.locked ≡ false
    → Suits machine_id platform tags m
    → Acquires now
        (Suits machine_id platform tags)
        ms
        (acquire healthy now machine_id platform tags ms)
unfolding acquire
acquire_available now machine_id platform tags ms m i free fits =
    go (truthy machine_id) refl (truthy platform) refl fits
  where
    go :
        (a : Bool)
        → truthy machine_id ≡ a
        → (b : Bool) → truthy platform ≡ b
        → (if a then Fits machine_id none [] m else Fits none platform tags m)
        → Acquires now
            (λ u. if a then Fits machine_id none [] u else Fits none platform tags u)
            ms
            (if a
              then lock_machine healthy now machine_id none [] ms
              else if b
              then lock_machine healthy now none platform tags ms
              else lock_machine healthy now none none tags ms)
    go true p b q h = lock-Acquires now machine_id none [] ms m (ground arith) i free h
    go false p true q h = lock-Acquires now none platform tags ms m refl i free h
    go false p false q h =
        widen now (Fits none none tags) (Fits none platform tags) ms _
          (λ u f. record {
            by_label = refl;
            by_platform = no_platform platform u q;
            by_tags = f.by_tags;
          })
          (lock-Acquires now none none tags ms m refl i free
            (record { by_label = refl; by_platform = refl; by_tags = h.by_tags }))
