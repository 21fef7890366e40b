-- ===== src/Signatures/Tests.antt =====
-- Runs of `RunSignatures` of lib/cuckoo/core/plugins.py on concrete signatures, and the theorems about it at
-- concrete inputs.
use capev.Base.{
  Bool, true, false, if◌then◌else◌, List, [], ◌∷◌, none, some, ℕ, ◌+◌, ◌≤◌, ◌≡◌, refl, ltb, map,
}
use capev.Base.Bytes.{codes}
use capev.Signatures.Version.{StrictVersion, check_signature_version}
use capev.Signatures.Evented.{
  Answer, answered, nothing, Call, Match, Methods, Signature, as_result, leaves, offer, run_evented,
  tell,
}
use capev.Signatures.Evented.Walk.{find, lists, offer-walk, prepend, walk}
use capev.Signatures.Evented.Skips.{reaches_next, joined, offer_skips}
use capev.Signatures.Evented.Once.{matches, run_evented-le, signatures}
use capev.Signatures.Run.{Analysis, Class, Overlay, evented_matches, run}
use capev.Signatures.Run.Sorted.{IsSorted, classes, overlaid, run-IsSorted}

-- A signature that matches at the first call.
abbrev eager : Methods (Unit {0})
eager = record {
  on_call = λ s process api category. (s, answered true);
  on_complete = λ s. (s, nothing);
  severity = λ s. 2;
  families = λ s. [];
}

abbrev signature : List ℕ → Signature (Unit {0})
signature name = record {
  name = name;
  filter_processnames = [];
  filter_apinames = [];
  filter_categories = [];
  state = tt;
}

abbrev call : Call
call = record { process_name = codes "a.exe"; api = codes "NtOpenKey"; category = codes "registry" }

abbrev first : Signature (Unit {0})
first = signature (codes "first")

abbrev second : Signature (Unit {0})
second = signature (codes "second")

-- The only call of the process matches both signatures, and the second one is not told of it.
one_match :
    map (λ (x : Match). x.name) (run_evented eager (call ∷ []) (first ∷ second ∷ []))
    ≡ codes "first" ∷ []
unfolding run_evented
one_match = refl

first-leaves : tell eager call first ≡ leaves (as_result eager first ∷ [])
unfolding tell
first-leaves = refl

abbrev third : Signature (Unit {0})
third = signature (codes "third")

abbrev fourth : Signature (Unit {0})
fourth = signature (codes "fourth")

third-leaves : tell eager call third ≡ leaves (as_result eager third ∷ [])
unfolding tell
third-leaves = refl

third_reached : reaches_next eager call (first ∷ second ∷ []) ≡ true
unfolding tell
third_reached = refl

offer_skips_example :
    offer eager call (lists eager (first ∷ second ∷ third ∷ fourth ∷ []) [])
    ≡ joined eager call (offer eager call (lists eager (first ∷ second ∷ []) [])) (
        find eager
          (as_result eager third ∷ [])
          (prepend eager fourth (offer eager call (lists eager [] []))))
offer_skips_example =
    offer_skips eager call (first ∷ second ∷ []) third fourth [] [] (as_result eager third ∷ [])
      third_reached third-leaves

offer-walk_example :
    offer eager call (lists eager (first ∷ second ∷ []) [])
    ≡ find eager [] (walk eager call (first ∷ second ∷ []))
offer-walk_example = offer-walk eager call (lists eager (first ∷ second ∷ []) [])

run_evented-le_example :
    matches (codes "first") (run_evented eager (call ∷ call ∷ []) (first ∷ second ∷ []))
    ≤ signatures (codes "first") (first ∷ second ∷ [])
run_evented-le_example =
    run_evented-le eager (codes "first") (call ∷ call ∷ []) (first ∷ second ∷ [])

-- Versions of one number.
abbrev numbers : StrictVersion ℕ
numbers = record { parse = λ t. elim t [ [] ↦ none | c ∷ cs ↦ some c ]; before = ltb }

too_old : check_signature_version numbers (codes "2-dev") (some (codes "3")) none ≡ false
unfolding check_signature_version
too_old = refl

abbrev sample : Analysis
sample = record {
  cuckoo_version = codes "2";
  category = codes "file";
  has_results = true;
  has_behavior = true;
  calls = call ∷ [];
}

abbrev class : ℕ → List ℕ → Bool → Class (Unit {0})
class order name evented = record {
  name = name;
  enabled = true;
  evented = evented;
  order = order;
  minimum = none;
  maximum = none;
  filter_analysistypes = [];
  instantiated = some (signature name);
  run = λ matched. if evented then Answer.not_implemented else answered true;
  result = λ matched. (order, []);
}

abbrev both : List (Class (Unit {0}))
both = class 3 (codes "late") false ∷ class 1 (codes "first") true ∷ []

-- The overlay takes the evented signature out of the classes that run afterwards, but not out of
-- the evented ones, which are chosen before.
abbrev overlay : Overlay (Unit {0})
overlay =
    (
      codes "first",
      record { set_class = λ sig. record sig { enabled = false }; set_instance = λ sig. sig },
    )
    ∷ []

in_severity :
    map (λ (x : Match). x.name) (run eager numbers sample overlay both)
    ≡ codes "first" ∷ codes "late" ∷ []
unfolding run check_signature_version
in_severity = refl

run-IsSorted_example :
    IsSorted (λ (match : Match). match.severity) (run eager numbers sample overlay both)
    × (matches (codes "late") (evented_matches eager numbers sample overlay both)
        ≤ matches (codes "late") (run eager numbers sample overlay both))
    × (matches (codes "late") (run eager numbers sample overlay both)
        ≤ matches (codes "late") (evented_matches eager numbers sample overlay both)
          + classes eager numbers sample
              (codes "late")
              (overlaid eager numbers sample (codes "late") overlay both))
run-IsSorted_example = run-IsSorted eager numbers sample (codes "late") overlay both
