-- ===== src/ResultServer/Protocol.antt =====
-- `negotiate_protocol` and `FileUpload.handle` of lib/cuckoo/core/resultserver.py. Numbers in byte
-- strings are read by Python's `int`, a parameter.
use capev.Base.{
  ℕ, ◌==◌, Bool, not, ◌&&◌, ◌||◌, Option, none, some, List, [], ◌∷◌, ◌++◌, any, is_empty,
  if◌then◌else◌,
}
use capev.Base.Bytes.{codes, same_bytes}

-- Python's `int` on a byte string, and the two tests that the code makes on its result.
pub record Ints (V : Type 0) : Type 0 where
  pub int : List ℕ → Option V
  pub is_zero : V → Bool
  pub is_two_or_more : V → Bool

abbrev pub is_space : ℕ → Bool
is_space c = c == 32 || c == 9 || c == 10 || c == 11 || c == 12 || c == 13

-- `split()`: the words between white space; `word` is the one that is being read.
unfoldable pub words : List ℕ → List ℕ → List (List ℕ)
words word [] = if is_empty word then [] else word ∷ []
words word (c ∷ cs) =
    let rest = words (if is_space c then [] else word ++ (c ∷ [])) cs in
    if is_space c && not (is_empty word) then word ∷ rest else rest

-- The protocols of `commands`.
pub data Protocol : Type 0 where
  bson_store file_upload log_handler : Protocol

pub data Negotiated (V : Type 0) : Type 0 where
  protocol : Protocol → Option V → Negotiated V
  unknown value_error : Negotiated V

abbrev pub find_protocol : List ℕ → Option Protocol
find_protocol command =
    if same_bytes command (codes "BSON")
    then some bson_store
    else if same_bytes command (codes "FILE")
    then some file_upload
    else if same_bytes command (codes "LOG")
    then some log_handler
    else none

module _ {V : Type 0} where
  abbrev pub with_version : List ℕ → Option V → Negotiated V
  with_version command version = elim (find_protocol command) [
    | none ↦ unknown
    | some p ↦ protocol p version
  ]

  -- `command, version = header.split(); version = int(version)`
  abbrev pub two_words : Ints V → List (List ℕ) → Negotiated V
  two_words i (command ∷ version ∷ []) = elim (i.int version) [
    | none ↦ value_error
    | some v ↦ with_version command (some v)
  ]
  two_words i _ = value_error

  -- `negotiate_protocol`, from the header line on.
  unfoldable pub negotiate : Ints V → List ℕ → Negotiated V
  unfolding words
  negotiate i header =
      if any (λ c. c == 32) header then two_words i (words [] header) else with_version header none
