-- ===== src/Database/Sql.antt =====
-- What a method of lib/cuckoo/core/database.py gets from SQLAlchemy: a query, a commit and
-- a refresh may raise `SQLAlchemyError`; a failed commit is rolled back, and a refresh that fails
-- comes after the commit. Which of them fails is an input.
use capev.Base.{Bool, false, Option, none, some, String, str_eq, not}

pub record Faults : Type 0 where
  pub query : Bool
  pub commit : Bool
  pub refresh : Bool

abbrev pub healthy : Faults
healthy = record { query = false; commit = false; refresh = false }

-- A method returns, or raises `CuckooOperationalError`.
pub data Outcome {ℓ} (A : Type ℓ) : Type ℓ where
  returned : A → Outcome A
  operational_error : Outcome A

-- The truth value of an optional Python string.
abbrev pub truthy : Option String → Bool
truthy none = false
truthy (some s) = not (str_eq s "")
