-- ===== src/Signatures/Run.antt =====
-- lib/cuckoo/core/plugins.py, `RunSignatures.process` and `RunSignatures.run`: all signatures of one
-- analysis. A signature is not a subclass of another one that is listed. The score is not modelled: it
-- is computed with floats.
use capev.Base.{
  any, Bool, if◌then◌else◌, is_empty, keep, leb, List, [], ◌∷◌, ◌++◌, map, not, Option, none, some,
  ℕ, true, false, ◌&&◌,
}
use capev.Base.Bytes.{same_bytes}
use capev.Signatures.Version.{StrictVersion, check_signature_version}
use capev.Signatures.Evented.{
  Answer, answered, Call, complete, failed, Lists, Match, Methods, not_implemented, nothing,
  offer_all, run_evented, Signature, Text,
}
pub mod Sorted

-- A class of signatures. `instance` is what its constructor makes, none where it raises an error;
-- `run` is its
-- method, which sees the matches so far in the results; `result` is the severity and the families after it.
pub record Class (S : Type 0) : Type 0 where
  pub name : Text
  pub enabled : Bool
  pub evented : Bool
  pub order : ℕ
  pub minimum : Option Text
  pub maximum : Option Text
  pub filter_analysistypes : List Text
  pub instantiated : Option (Signature S)
  pub run : List Match → Answer
  pub result : List Match → ℕ × List Text

-- `list.sort(key=…)`, which is stable.
module _ {A : Type 0} (key : A → ℕ) where
  unfoldable pub insert : A → List A → List A
  insert x [] = x ∷ []
  insert x (y ∷ ys) =
      let later = y ∷ insert x ys in if leb (key x) (key y) then x ∷ y ∷ ys else later

  unfoldable pub sort : List A → List A
  unfolding insert
  sort [] = []
  sort (x ∷ xs) = insert x (sort xs)

-- The analysis: the version that runs, the category of the target, whether there are results and a
-- behavior part in them, and its calls.
pub record Analysis : Type 0 where
  pub cuckoo_version : Text
  pub category : Text
  pub has_results : Bool
  pub has_behavior : Bool
  pub calls : List Call

-- The attributes that the overlay has for a name: what setting them makes of a class, and of an
-- instance.
pub record Attributes (S : Type 0) : Type 0 where
  pub set_class : Class S → Class S
  pub set_instance : Signature S → Signature S

abbrev pub Overlay : Type 0 → Type 0
Overlay S = List (Text × Attributes S)

abbrev pub lookup : {A : Type 0} → Text → List (Text × A) → Option A
lookup name [] = none
lookup name ((key, x) ∷ rest) = if same_bytes name key then some x else lookup name rest

-- `_apply_overlay`, on a class and on an instance.
unfoldable pub apply_to_class : {S : Type 0} → Overlay S → Class S → Class S
apply_to_class overlay sig = elim (lookup sig.name overlay) [
  | none ↦ sig
  | some attrs ↦ attrs.set_class sig
]

unfoldable pub apply_to_instance : {S : Type 0} → Overlay S → Signature S → Signature S
apply_to_instance overlay sig = elim (lookup sig.name overlay) [
  | none ↦ sig
  | some attrs ↦ attrs.set_instance sig
]

module _ {S V : Type 0} (m : Methods S) (v : StrictVersion V) (a : Analysis) where
  abbrev pub has_version : Class S → Bool
  has_version sig = check_signature_version v a.cuckoo_version sig.minimum sig.maximum

  -- `not filter or category in filter`
  abbrev pub suits : Class S → Bool
  suits sig =
      if is_empty sig.filter_analysistypes
      then true
      else any (same_bytes a.category) sig.filter_analysistypes

  unfoldable pub is_evented : Class S → Bool
  is_evented sig = sig.enabled && (sig.evented && (has_version sig && suits sig))

  -- The comprehension; none where a constructor raises an error.
  unfoldable pub instances : List (Class S) → Option (List (Signature S))
  instances [] = some []
  instances (sig ∷ sigs) = elim sig.instantiated [
    | none ↦ none
    | some s ↦ elim (instances sigs) [ none ↦ none | some rest ↦ some (s ∷ rest) ]
  ]

  -- The error is printed, and the list stays empty.
  abbrev pub or_empty : Option (List (Signature S)) → List (Signature S)
  or_empty none = []
  or_empty (some sigs) = sigs

  unfoldable pub evented_list : List (Class S) → List (Signature S)
  unfolding is_evented instances
  evented_list complete_list = or_empty (instances (keep is_evented complete_list))

  abbrev pub as_result : Class S → ℕ × List Text → Match
  as_result sig (severity, families) = record {
    name = sig.name;
    severity = severity;
    families = families;
  }

  abbrev pub run_result : Class S → List Match → Answer → Option Match
  run_result sig matched (answered true) = some (as_result sig (sig.result matched))
  run_result sig matched (answered false) = none
  run_result sig matched nothing = none
  run_result sig matched not_implemented = none
  run_result sig matched failed = none

  abbrev pub run_instance : Class S → List Match → Option (Signature S) → Option Match
  run_instance sig matched none = none
  run_instance sig matched (some s) =
      if sig.enabled && has_version sig then run_result sig matched (sig.run matched) else none

  unfoldable pub process : Class S → List Match → Option Match
  process sig matched = if a.has_results then run_instance sig matched sig.instantiated else none

  abbrev pub add : Option Match → List Match → List Match
  add none matched = matched
  add (some match) matched = matched ++ (match ∷ [])

  -- The loop over the sorted classes.
  unfoldable pub process_all : List (Class S) → List Match → List Match
  unfolding process
  process_all [] matched = matched
  process_all (sig ∷ sigs) matched =
      process_all sigs (if suits sig then add (process sig matched) matched else matched)

  -- What the evented signatures leave; they are skipped without a behavior part. They are chosen from
  -- the classes as they were loaded, and the overlay is applied to the instances.
  unfoldable pub evented_matches : Overlay S → List (Class S) → List Match
  unfolding evented_list run_evented apply_to_instance
  evented_matches overlay complete_list =
      if a.has_behavior
      then run_evented m a.calls (map (apply_to_instance overlay) (evented_list complete_list))
      else []

  -- `matched` at the end. Of `complete_list` nothing has been removed: it holds classes, and the code
  -- looks for instances in it.
  unfoldable pub run : Overlay S → List (Class S) → List Match
  unfolding evented_matches process_all sort apply_to_class
  run overlay complete_list =
      sort (λ match. match.severity)
        (process_all (sort (λ sig. sig.order) (map (apply_to_class overlay) complete_list))
          (evented_matches overlay complete_list))

  -- The family that is reported, where detection by behavior is on.
  unfoldable pub family : List Match → Option Text
  family [] = none
  family (match ∷ matched) = elim match.families [ [] ↦ family matched | f ∷ fs ↦ some f ]
