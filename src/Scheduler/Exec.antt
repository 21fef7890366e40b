-- ===== src/Scheduler/Exec.antt =====
-- Python code that changes the world and may raise: what has been done before an exception stays
-- done. The exceptions are those that lib/cuckoo/core/scheduler.py tells apart.
use capev.Base.{Bool, true, false, Option, none, some, if◌then◌else◌}

pub data Exc : Type 0 where
  machine_error network_error guest_error operational_error : Exc
  critical_error dead_machine not_implemented other_error : Exc

-- `blocked` is no end of the code: it waits, and the given rounds of waiting are used up.
pub data Result {ℓ} (A : Type ℓ) : Type ℓ where
  ok : A → Result A
  raised : Exc → Result A
  blocked : Result A

abbrev pub Exec {ℓ} : Type ℓ → Type ℓ → Type ℓ
Exec S A = S → Result A × S

module _ {ℓ} {S A : Type ℓ} where
  abbrev pub pure : A → Exec S A
  pure a s = (ok a, s)

  abbrev pub raise : Exc → Exec S A
  raise e s = (raised e, s)

  abbrev pub gets : (S → A) → Exec S A
  gets f s = (ok (f s), s)

abbrev pub modify : {S : Type 0} → (S → S) → Exec S (Unit {0})
modify f s = (ok tt, f s)

module _ {ℓ} {S A B : Type ℓ} where
  abbrev pub continue : Result A × S → (A → Exec S B) → Result B × S
  continue (ok a, s) f = f a s
  continue (raised e, s) f = (raised e, s)
  continue (blocked, s) f = (blocked, s)

  infixl 5 ◌>>=◌ ◌>>◌
  abbrev pub ◌>>=◌ : Exec S A → (A → Exec S B) → Exec S B
  ◌>>=◌ m f s = continue (m s) f

  abbrev pub ◌>>◌ : Exec S A → Exec S B → Exec S B
  m >> n = m >>= λ _. n

-- An external call that raises the given exception, or returns.
abbrev pub external : {S : Type 0} → Option Exc → Exec S (Unit {0})
external none s = (ok tt, s)
external (some e) s = (raised e, s)

-- `try: m` with an `except` clause for the exceptions that pass the test.
abbrev pub handle : {S A : Type 0} → (Exc → Bool) → (Exc → Exec S A) → Result A × S → Result A × S
handle catches handler (ok a, s) = (ok a, s)
handle catches handler (raised e, s) = if catches e then handler e s else (raised e, s)
handle catches handler (blocked, s) = (blocked, s)

abbrev pub try_except : {S A : Type 0} → (Exc → Bool) → (Exc → Exec S A) → Exec S A → Exec S A
try_except catches handler m s = handle catches handler (m s)

-- `finally`: an exception of the cleanup replaces the outcome of the body.
abbrev pub settle : {S A : Type 0} → Result A → Result (Unit {0}) × S → Result A × S
settle r (ok _, s) = (r, s)
settle r (raised e, s) = (raised e, s)
settle r (blocked, s) = (blocked, s)

abbrev pub run_cleanup : {S A : Type 0} → Exec S (Unit {0}) → Result A × S → Result A × S
run_cleanup cleanup (ok a, s) = settle (ok a) (cleanup s)
run_cleanup cleanup (raised e, s) = settle (raised e) (cleanup s)
run_cleanup cleanup (blocked, s) = (blocked, s)

abbrev pub try_finally : {S A : Type 0} → Exec S A → Exec S (Unit {0}) → Exec S A
try_finally m cleanup s = run_cleanup cleanup (m s)

-- The classes of `except` clauses.
abbrev pub is_machine_error : Exc → Bool
is_machine_error machine_error = true
is_machine_error _ = false

abbrev pub is_network_error : Exc → Bool
is_network_error network_error = true
is_network_error _ = false

abbrev pub is_guest_error : Exc → Bool
is_guest_error guest_error = true
is_guest_error _ = false

-- `CuckooOperationalError` is the base class of the machine, network and guest errors.
abbrev pub is_operational : Exc → Bool
is_operational machine_error = true
is_operational network_error = true
is_operational guest_error = true
is_operational operational_error = true
is_operational _ = false

abbrev pub is_not_implemented : Exc → Bool
is_not_implemented not_implemented = true
is_not_implemented _ = false

abbrev pub is_dead_machine : Exc → Bool
is_dead_machine dead_machine = true
is_dead_machine _ = false
