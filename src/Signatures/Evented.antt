-- ===== src/Signatures/Evented.antt =====
-- lib/cuckoo/core/plugins.py, `RunSignatures.run`: the evented signatures, which are told the calls one by
-- one until they answer. What a signature does is a parameter. An instance equals only itself, so
-- `evented_list.remove(sig)` takes out the one at the position of the loop; the loop goes on by
-- position in the list that has changed.
use capev.Base.{
  Bool, if◌then◌else◌, length, set, get_elem?, List, [], ◌∷◌, ◌++◌, Option, none, some, ℕ, zero,
  suc, ◌+◌, true, false, any, is_empty, not, ◌&&◌, ◌||◌, String, map,
}
use capev.Base.Bytes.{same_bytes}
pub mod Walk
pub mod Skips
pub mod Once

abbrev pub Text : Type 0
Text = List ℕ

-- What a method of a signature returns or raises.
pub data Answer : Type 0 where
  nothing : Answer
  answered : Bool → Answer
  not_implemented : Answer
  failed : Answer

-- The methods of the signatures, whose instances have the state `S`.
pub record Methods (S : Type 0) : Type 0 where
  pub on_call : S → Text → Text → Text → S × Answer
  pub on_complete : S → S × Answer
  pub severity : S → ℕ
  pub families : S → List Text

pub record Signature (S : Type 0) : Type 0 where
  pub name : Text
  pub filter_processnames : List Text
  pub filter_apinames : List Text
  pub filter_categories : List Text
  pub state : S

-- `as_result`, as far as the runner reads it.
pub record Match : Type 0 where
  pub name : Text
  pub severity : ℕ
  pub families : List Text

pub record Call : Type 0 where
  pub process_name : Text
  pub api : Text
  pub category : Text

-- `filter and not value in filter` is the test to skip the call.
unfoldable pub admits : List Text → Text → Bool
admits [] value = true
admits (f ∷ fs) value = any (same_bytes value) (f ∷ fs)

unfoldable pub is_interested : {S : Type 0} → Signature S → Call → Bool
unfolding admits
is_interested sig call =
    admits sig.filter_processnames call.process_name
    && (admits sig.filter_apinames call.api && admits sig.filter_categories call.category)

module _ {S : Type 0} (m : Methods S) where
  unfoldable pub as_result : Signature S → Match
  as_result sig = record {
    name = sig.name;
    severity = m.severity sig.state;
    families = m.families sig.state;
  }

  -- The signature stays in the list, or leaves it with its match if there is one.
  pub data Told : Type 0 where
    stays : Signature S → Told
    leaves : List Match → Told

  abbrev pub settle : Signature S → S × Answer → Told
  settle sig (s, nothing) = stays (record sig { state = s })
  settle sig (s, answered true) = leaves (as_result (record sig { state = s }) ∷ [])
  settle sig (s, answered false) = leaves []
  settle sig (s, not_implemented) = leaves []
  settle sig (s, failed) = leaves []

  -- One round of the loop over the signatures.
  unfoldable pub tell : Call → Signature S → Told
  unfolding is_interested as_result
  tell call sig =
      if is_interested sig call
      then settle sig (m.on_call sig.state call.process_name call.api call.category)
      else stays sig

  pub record Lists : Type 0 where
    pub evented_list : List (Signature S)
    pub matched : List Match

  unfoldable pub remove_at : ℕ → List (Signature S) → List (Signature S)
  remove_at i [] = []
  remove_at zero (x ∷ xs) = xs
  remove_at (suc i) (x ∷ xs) = x ∷ remove_at i xs

  abbrev pub told : Call → Option (Signature S) → Option Told
  told call none = none
  told call (some sig) = some (tell call sig)

  -- The lists after the round at a position.
  abbrev pub update : ℕ → Lists → Option Told → Option Lists
  update i l none = none
  update i l (some (stays sig)) = some (record l { evented_list = set l.evented_list i sig })
  update i l (some (leaves found)) =
      some (record { evented_list = remove_at i l.evented_list; matched = l.matched ++ found })

  -- One round of `for sig in evented_list`; none when the position is past the end.
  unfoldable pub round : Call → ℕ → Lists → Option Lists
  unfolding tell remove_at
  round call i l = update i l (told call (get_elem? l.evented_list i))

  -- Fuel: each round moves on by one position, so the length of the list is enough.
  unfoldable pub loop : Call → ℕ → ℕ → Lists → Lists
  unfolding round
  loop call zero i l = l
  loop call (suc fuel) i l = elim (round call i l) [
    | none ↦ l
    | some l' ↦ loop call fuel (i + 1) l'
  ]

  -- One call of one process.
  unfoldable pub offer : Call → Lists → Lists
  unfolding loop
  offer call l = loop call (length l.evented_list) 0 l

  -- The calls of all processes, in their order.
  unfoldable pub offer_all : List Call → Lists → Lists
  unfolding offer
  offer_all [] l = l
  offer_all (call ∷ calls) l = offer_all calls (offer call l)

  abbrev pub completed : Signature S → S × Answer → List Match
  completed sig (s, answered true) = as_result (record sig { state = s }) ∷ []
  completed sig (s, answered false) = []
  completed sig (s, nothing) = []
  completed sig (s, not_implemented) = []
  completed sig (s, failed) = []

  -- What the method stop of a remaining instance adds.
  unfoldable pub complete : Signature S → List Match
  unfolding as_result
  complete sig = completed sig (m.on_complete sig.state)

  unfoldable pub complete_all : List (Signature S) → List Match
  unfolding complete
  complete_all [] = []
  complete_all (sig ∷ sigs) = complete sig ++ complete_all sigs

  -- The matches of the evented signatures.
  unfoldable pub run_evented : List Call → List (Signature S) → List Match
  unfolding offer_all complete_all
  run_evented calls sigs =
      let l = offer_all calls (record { evented_list = sigs; matched = [] }) in
      l.matched ++ complete_all l.evented_list
