-- ===== src/Quarantine/Sep.antt =====
-- The decoder for Symantec, `read_sep_tag` and `sep_unquarantine` of
-- lib/cuckoo/common/quarantine.py.
pub mod Reading
pub mod Chunks
pub mod Roundtrip
use capev.Base.{
  ℕ, zero, suc, ◌+◌, ◌-◌, ◌*◌, ◌==◌, Bool, true, false, not, ◌&&◌, ◌||◌, Option, none, some, List,
  [], ◌∷◌, ◌++◌, length, get_elem?, ltb, if◌then◌else◌, String,
}
use capev.Base.Int.{ℤ, pos, negsuc, ◌+ℤ◌, ◌-ℤ◌, ltb_ℤ}
use capev.Base.Bytes.{slice, unpack_u32, xor_loop}
use capev.Quarantine.Result.{Unquarantined, raised, nothing, stored, ◌>>=◌, bytearray_xor}

-- `struct.unpack("<Q", data)`
unfoldable pub unpack_u64 : List ℕ → Option ℕ
unpack_u64 (a ∷ b ∷ c ∷ d ∷ e ∷ f ∷ g ∷ h ∷ []) =
    some (a + 256 * (b + 256 * (c + 256 * d)) + 4294967296 * (e + 256 * (f + 256 * (g + 256 * h))))
unpack_u64 _ = none

-- What `read_sep_tag` returns; data of type `str` is empty.
pub record Tag : Type 0 where
  pub code : ℕ
  pub size : ℕ
  pub value : ℕ
  pub contents : List ℕ

abbrev tag_of : ℕ → ℕ → Option ℕ → Option Tag
tag_of code size none = none
tag_of code size (some v) = some record { code = code; size = size; value = v; contents = [] }

abbrev with_contents : List ℕ → ℕ → Option Tag → Option Tag
with_contents xs offset none = none
with_contents xs offset (some t) =
    some (record t { contents = slice xs (offset + 5) (offset + 5 + t.value) })

-- By the code byte; none where `struct.unpack` raises.
abbrev pub tag_at : List ℕ → ℕ → ℕ → Option Tag
tag_at xs offset code =
    if code == 1 || code == 10
    then tag_of code 2 (get_elem? xs (offset + 1))
    else if code == 3 || code == 6
    then tag_of code 5 (unpack_u32 (slice xs (offset + 1) (offset + 5)))
    else if code == 4
    then tag_of code 9 (unpack_u64 (slice xs (offset + 1) (offset + 9)))
    else with_contents xs offset (tag_of code 5 (unpack_u32 (slice xs (offset + 1) (offset + 5))))

unfoldable pub read_sep_tag : List ℕ → ℕ → Option Tag
read_sep_tag xs offset = elim (get_elem? xs offset) [
  | none ↦ none
  | some code ↦ tag_at xs offset code
]

-- The variables of the loop.
pub record Scan : Type 0 where
  pub bytes : List ℕ
  pub offset : ℕ
  pub decode_next_container : Bool
  pub xor_next_container : Bool
  pub has_header : Bool
  pub binsize : ℕ
  pub collectedsize : ℤ
  pub bindata : List ℕ
  pub lastlen : ℕ

-- `data[start : start + n]`, where the end may lie before the start, or count from the end of the data.
abbrev pub slice_by : List ℕ → ℕ → ℤ → List ℕ
slice_by xs start (pos n) = slice xs start (start + n)
slice_by xs start (negsuc n) =
    if ltb start (suc n) then slice xs start (length xs - (suc n - start)) else []

-- The first container of a file, which begins with a header.
abbrev pub first_container : ℕ → Scan → Option Scan
first_container n s = elim (unpack_u32 (slice s.bytes (s.offset + 13) (s.offset + 17))) [
  | none ↦ none
  | some skip ↦
      let headerlen = 12 + skip + 28 in
      let start = s.offset + 5 + headerlen in
      elim (unpack_u32 (slice s.bytes (start - 12) (start - 8))) [
        | none ↦ none
        | some binsize ↦
            let collected = s.collectedsize +ℤ (pos n -ℤ pos headerlen) in
            let binlen = if ltb_ℤ (pos binsize) collected then pos binsize else collected in
            some record s {
              has_header = false;
              binsize = binsize;
              collectedsize = collected;
              bindata = s.bindata ++ slice_by s.bytes start binlen;
            }
      ]
]

-- A container without a header.
abbrev pub next_container : ℕ → Scan → Scan
next_container n s =
    let collected = s.collectedsize +ℤ pos n in
    let binlen =
      if ltb_ℤ (pos s.binsize) collected then pos n -ℤ (collected -ℤ pos s.binsize) else pos n in
    record s {
      collectedsize = collected;
      bindata = s.bindata ++ slice_by s.bytes (s.offset + 5) binlen;
    }

-- A container whose bytes are changed in place.
unfoldable pub xor_container : ℕ → Scan → Option Scan
xor_container n s = elim (xor_loop n 0 (s.offset + 5) (λ i. 0xff) s.bytes) [
  | none ↦ none
  | some ys ↦
      if s.has_header
      then first_container n (record s { bytes = ys })
      else some (next_container n (record s { bytes = ys }))
]

-- A container that tells what the next one is, by its size.
abbrev pub announce : ℕ → Scan → Option Scan
announce value s =
    if value == 8
    then elim (unpack_u64 (slice s.bytes (s.offset + 5) (s.offset + 13))) [
      | none ↦ none
      | some lastlen ↦
          some (record s {
            xor_next_container = true;
            lastlen = lastlen;
            decode_next_container = true;
          })
    ]
    else if value == 16
    then some (record s { xor_next_container = false; decode_next_container = true })
    else some s

abbrev moved : ℕ → Option Scan → Option Scan
moved n none = none
moved n (some s) = some (record s { offset = s.offset + n })

-- One round, up to the new offset. The contents of a container that is decoded are read as tags.
abbrev pub scan_tag : Tag → Scan → Option Scan
scan_tag t s =
    if t.code == 9
    then if s.xor_next_container
      then moved (t.size + length t.contents) (xor_container (length t.contents) s)
      else if s.decode_next_container
      then moved t.size (some (record s { decode_next_container = false }))
      else moved (t.size + length t.contents) (announce t.value s)
    else moved (t.size + length t.contents) (
        some (
          if t.code == 4 && (s.xor_next_container && s.lastlen == t.value)
          then record s { binsize = t.value; has_header = false }
          else s))

unfoldable pub round : Scan → Option Scan
unfolding read_sep_tag xor_container
round s = elim (read_sep_tag s.bytes s.offset) [ none ↦ none | some t ↦ scan_tag t s ]

-- The loop; 20000 rounds end it without an error.
unfoldable pub scan : ℕ → ℕ → Scan → Option Scan
unfolding round
scan zero filesize s = some s
scan (suc n) filesize s = elim (round s) [
  | none ↦ none
  | some s' ↦ if s'.offset == filesize then some s' else scan n filesize s'
]

abbrev pub start_scan : List ℕ → Scan
start_scan xs = record {
  bytes = xs;
  offset = 0x1290 + 0x28;
  decode_next_container = false;
  xor_next_container = false;
  has_header = true;
  binsize = 0;
  collectedsize = pos 0;
  bindata = [];
  lastlen = 0;
}

-- `name` stands for the chain of `bytes`, `str`, `rstrip` and `basename`.
unfoldable pub sep_unquarantine : (List ℕ → String) → List ℕ → Unquarantined
unfolding scan bytearray_xor
sep_unquarantine name qdata = do
  dataoffset ← unpack_u32 (slice qdata 0 4)
  if not (dataoffset == 0x1290) then nothing else do
    s ← scan 20000 (length qdata) (start_scan (bytearray_xor qdata 0x5a))
    stored s.bindata (name (slice qdata 4 388))
