-- ===== src/Quarantine/Dispatch.antt =====
-- `mcafee_unquarantine` and `unquarantine` of lib/cuckoo/common/quarantine.py. The package olefile,
-- Python's functions on texts, the checksum and the digest are parameters, and so are the name of the
-- file and its extension in small letters.
pub mod Stores
use text.Mathlib.Text.{find?}
use capev.Base.{
  ℕ, Bool, true, false, not, ◌&&◌, ◌||◌, Option, none, some, List, [], ◌∷◌, ◌++◌, any, keep,
  is_some, is_empty, if◌then◌else◌, String, str_eq,
}
use capev.Quarantine.Result.{Unquarantined, raised, nothing, out_of_fuel, stored, bytearray_xor}
use capev.Quarantine.Mse.{mse_unquarantine, mbam_unquarantine}
use capev.Quarantine.Kav.{kav_unquarantine}
use capev.Quarantine.Trend.{trend_unquarantine, xorff_unquarantine}
use capev.Quarantine.Sep.{sep_unquarantine}

-- What olefile says of a file: none where a call raises.
pub record Ole : Type 0 where
  pub installed : Bool
  pub is_ole : List ℕ → Bool
  pub listdir : List ℕ → Option (List (List String))
  pub stream : List ℕ → String → Option (List ℕ)

-- `decoded[item] = bytearray_xor(…)` for the streams that can be read, in their order.
unfoldable pub decode_streams : (String → Option (List ℕ)) → List String → List (List ℕ)
unfolding bytearray_xor
decode_streams open_stream [] = []
decode_streams open_stream (item ∷ items) =
    let rest = decode_streams open_stream items in
    elim (open_stream item) [ none ↦ rest | some xs ↦ bytearray_xor xs 0x6a ∷ rest ]

-- Storing the first decoded stream. `details` is a byte array, so `startswith("[")` raises on its
-- first line; without `Details` before, the name is not bound.
abbrev pub store_decoded : Option (List ℕ) → List ℕ → Unquarantined
store_decoded none xs = raised
store_decoded (some details) xs =
    if is_empty details then stored xs "McAfeeDequarantineFile" else raised

-- The loop over the entries, with the details and the names so far.
unfoldable pub read_entries :
    (String → Option (List ℕ)) → List (List String) → Option (List ℕ) → List String → Unquarantined
unfolding decode_streams bytearray_xor
read_entries open_stream [] details quarfiles = nothing
read_entries open_stream (entry ∷ entries) details quarfiles =
    let found = quarfiles ++ keep (λ name. is_some (find? name "File_")) entry in
    let skipped = read_entries open_stream entries details found in
    if any (λ name. str_eq name "Details") entry
    then elim (open_stream "Details") [
      | none ↦ raised
      | some xs ↦ read_entries open_stream entries (some (bytearray_xor xs 0x6a)) quarfiles
    ]
    else elim (decode_streams open_stream found) [
      | [] ↦ skipped
      | xs ∷ _ ↦ store_decoded details xs
    ]

unfoldable pub mcafee_unquarantine : Ole → List ℕ → Unquarantined
unfolding read_entries
mcafee_unquarantine ole qdata =
    if not (ole.installed && ole.is_ole qdata) then nothing else elim (ole.listdir qdata) [
      | none ↦ raised
      | some entries ↦ read_entries (ole.stream qdata) entries none []
    ]

-- `try: return …` with `except Exception` that goes on.
abbrev pub or_on_error : Unquarantined → Unquarantined → Unquarantined
or_on_error raised next = next
or_on_error r next = r

-- One round of the last loop, which returns a result if there is one.
abbrev pub or_else : Unquarantined → Unquarantined → Unquarantined
or_else raised next = next
or_else nothing next = next
or_else r next = r

module _ (ole : Ole) (text path_text sep_name : List ℕ → String) (crc32 : List ℕ → ℕ)
    (digest : List ℕ) (base ext : String) where
  -- The decoders in the order of the last loop.
  unfoldable pub try_all : List ℕ → Unquarantined
  try_all qdata = or_else (kav_unquarantine text path_text qdata) (
      or_else (trend_unquarantine crc32 qdata) (
        or_else (sep_unquarantine sep_name qdata)
          (or_else (mse_unquarantine qdata) (or_else (xorff_unquarantine base qdata) nothing))))

  -- `func_map`
  abbrev pub by_extension : List ℕ → Unquarantined
  by_extension qdata =
      if str_eq ext ".quar"
      then mbam_unquarantine digest qdata
      else if str_eq ext ".mal"
      then xorff_unquarantine base qdata
      else if str_eq ext ".but"
      then mcafee_unquarantine ole qdata
      else raised

  -- The first test.
  abbrev pub is_mcafee : List ℕ → Bool
  is_mcafee qdata = str_eq ext ".bup" || (ole.installed && ole.is_ole qdata)

  unfoldable pub unquarantine : List ℕ → Unquarantined
  unfolding try_all
  unquarantine qdata =
      or_on_error (if is_mcafee qdata then mcafee_unquarantine ole qdata else raised)
        (or_on_error (by_extension qdata) (try_all qdata))
