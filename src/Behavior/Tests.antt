-- ===== src/Behavior/Tests.antt =====
-- Runs of the classes of modules/processing/behavior.py on concrete calls, and the theorems about
-- them at concrete inputs.

use capev.Base.{Bool, true, List, [], ◌∷◌, none, ◌≡◌, refl, ℕ, any, map, not, keep}
use capev.Base.Bytes.{codes}
use capev.Behavior.Calls.{api_starts, get_argument, Call, Python, Raw}
use capev.Behavior.Tree.{Entry, run, tree, nil, collect, has_parent}
use capev.Behavior.Tree.Nodes.{entries}
use capev.Behavior.Tree.Once.{run-collect, count}
use capev.Behavior.Tree.Linked.{top}
use capev.Behavior.Tree.Placed.{top-run, ParentsFirst}
use capev.Behavior.Marks.{marks, keys, write_keys}
use capev.Behavior.Summary
use capev.Behavior.Summary.{Lists, select, branches}
use capev.Behavior.Summary.Collected.{has, has-collect, asks}
use capev.Behavior.Summary.Parts.{collect-whole, empty}
use capev.Behavior.Buffers
use capev.Behavior.Buffers.{Buffer, Process}

abbrev entry : ℕ → ℕ → Entry (Unit {0})
entry pid parent = record { pid = pid; parent_id = parent; details = tt }

abbrev alike : Unit {0} → Unit {0} → Bool
alike a b = true

-- explorer starts a program, which starts another one.
abbrev in_order : List (Entry (Unit {0}))
in_order = entry 1 0 ∷ entry 2 1 ∷ entry 3 2 ∷ []

chain : run alike in_order ≡ tree (entry 1 0) (tree (entry 2 1) (tree (entry 3 2) nil nil) nil) nil
unfolding run
chain = refl

-- A process that comes before its own parent becomes a root, although its parent is in the list.
late_parent :
    run alike (entry 1 0 ∷ entry 3 2 ∷ entry 2 1 ∷ [])
    ≡ tree (entry 1 0) (tree (entry 2 1) nil nil) (tree (entry 3 2) nil nil)
unfolding run
late_parent = refl

run-collect_example :
    count 2 (entries (run alike (collect (entry 1 0 ∷ entry 2 1 ∷ entry 2 1 ∷ []) []))) ≡ 1
run-collect_example = run-collect alike (entry 1 0 ∷ entry 2 1 ∷ entry 2 1 ∷ []) 2

in_order-ParentsFirst : ParentsFirst alike in_order [] in_order
unfolding has_parent
in_order-ParentsFirst = (λ e. cc, (λ e. refl, (λ e. refl, tt)))

top-run_example : top (run alike in_order) ≡ keep (λ p. not (has_parent alike in_order p)) in_order
top-run_example = top-run alike in_order in_order-ParentsFirst

-- A Python that reads no number and changes no text.
abbrev plain : Python
plain = record { int = λ base t. none; strip = λ t. t; lower = λ t. t; encode = λ t. t }

abbrev set_value : Call
set_value = record {
  api = codes "RegSetValueExW";
  category = codes "registry";
  status = true;
  arguments =
      record { name = codes "FullName"; value = codes "HKCU"; raw_value = Raw.text [] } ∷ [];
}

abbrev twice : List Call
twice = set_value ∷ set_value ∷ []

written : Summary.collect plain twice empty write_keys ≡ codes "HKCU" ∷ []
unfolding Summary.collect api_starts marks get_argument
written = refl

has-collect_example :
    has write_keys (codes "HKCU") (Summary.collect plain twice empty)
    ≡ any (λ call. asks write_keys (codes "HKCU") (select (branches plain call))) twice
has-collect_example = has-collect plain write_keys (codes "HKCU") twice empty

collect-whole_example : has keys (codes "HKCU") (Summary.collect plain twice empty) ≡ true
unfolding Summary.collect api_starts marks get_argument
collect-whole_example = collect-whole plain twice write_keys (codes "HKCU") refl

abbrev encrypt : Call
encrypt = record {
  api = codes "CryptEncryptMessage";
  category = codes "crypto";
  status = true;
  arguments = record { name = codes "Buffer"; value = codes "key"; raw_value = Raw.text [] } ∷ [];
}

abbrev sample : Process
sample = record { process_name = codes "a.exe"; process_id = 4 }

-- One call is entered twice, since the name of its function starts with the other's name.
two_entries :
    map (λ (b : Buffer). b.api_call) (Buffers.event_apicall plain sample encrypt [])
    ≡ "CryptEncrypt" ∷ "CryptEncryptMessage" ∷ []
unfolding Buffers.event_apicall
two_entries = refl
