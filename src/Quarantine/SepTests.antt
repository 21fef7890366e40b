-- ===== src/Quarantine/SepTests.antt =====
-- The decoder for Symantec and the choice of a decoder at small files.
use capev.Base.{
  ℕ, zero, suc, ◌≡◌, refl, true, false, none, some, Option, List, [], ◌∷◌, ◌++◌, String, length,
  arith,
}
use capev.Base.Bytes.{pack_u32, slice, unpack_u32, xor_loop, xor_at}
use capev.Quarantine.Result.{stored, raised, bytearray_xor}
use capev.Quarantine.Sep.{Scan, start_scan, round, sep_unquarantine, read_sep_tag, xor_container}
use capev.Quarantine.Sep.Reading.{head}
use capev.Quarantine.Sep.Roundtrip.{sep_data, sep_unquarantine_chunks}
use capev.Quarantine.Dispatch.{Ole, unquarantine, mcafee_unquarantine, read_entries, decode_streams}
use capev.Quarantine.Dispatch.Stores.{IsStored, unquarantine-IsStored}

abbrev zeros : ℕ → List ℕ
zeros zero = []
zeros (suc n) = 0 ∷ zeros n

abbrev header : List ℕ
header = 0xca ∷ 0x48 ∷ 0x5a ∷ 0x5a ∷ zeros 0x12b4

abbrev first : List ℕ
first = 0x4d ∷ 0x5a ∷ []

abbrev second : List ℕ
second = 0x90 ∷ []

abbrev any_name : List ℕ → String
any_name xs = "setup.exe"

abbrev infected : List ℕ
infected = sep_data header (first ∷ second ∷ [])

sep_magic : unpack_u32 (slice infected 0 4) ≡ some 0x1290
unfolding unpack_u32 slice bytearray_xor
sep_magic = refl

sep_unquarantine_chunks_example :
    sep_unquarantine any_name infected ≡ stored (0x4d ∷ 0x5a ∷ 0x90 ∷ []) "setup.exe"
sep_unquarantine_chunks_example =
    sep_unquarantine_chunks any_name header first (second ∷ []) refl sep_magic (omega arith)
      (omega arith, (omega arith, tt)) (omega arith)

abbrev no_ole : Ole
no_ole = record {
  installed = false;
  is_ole = λ qdata. false;
  listdir = λ qdata. none;
  stream = λ qdata name. none;
}

unquarantine-IsStored_example :
    IsStored
      (unquarantine no_ole any_name any_name any_name length (1 ∷ []) "report.vbn" ".vbn" infected)
unquarantine-IsStored_example =
    unquarantine-IsStored no_ole any_name any_name any_name length (1 ∷ []) "report.vbn" ".vbn"
      infected refl refl

abbrev collected : Option Scan → List ℕ
collected none = []
collected (some s) = s.bindata

-- A container with a header, whose file has two bytes.
abbrev with_header : Scan
with_header =
    record (start_scan
      (head 42 ++ bytearray_xor (zeros 28 ++ (pack_u32 2 ++ (zeros 8 ++ (77 ∷ 90 ∷ [])))) 0xff)) {
        offset = 0;
        xor_next_container = true;
      }

round-with_header : collected (round with_header) ≡ 77 ∷ 90 ∷ []
unfolding round read_sep_tag xor_container xor_loop xor_at slice unpack_u32 bytearray_xor
round-with_header = refl

-- Details and one quarantined file.
abbrev bup : Ole
bup = record {
  installed = true;
  is_ole = λ qdata. true;
  listdir = λ qdata. some (("Details" ∷ []) ∷ ("File_0" ∷ []) ∷ []);
  stream = λ qdata name. some (0x31 ∷ []);
}

mcafee_raises : mcafee_unquarantine bup [] ≡ raised
unfolding mcafee_unquarantine read_entries decode_streams
mcafee_raises = refl
