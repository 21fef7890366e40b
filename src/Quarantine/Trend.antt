-- ===== src/Quarantine/Trend.antt =====
-- The decoder for Trend Micro, `trend_unquarantine` of lib/cuckoo/common/quarantine.py. The checksum
-- `binascii.crc32` is a parameter.
pub mod Body
use capev.Base.{
  ℕ, zero, suc, ◌+◌, ◌-◌, ◌*◌, ◌/◌, ◌%◌, ◌^◌, ◌==◌, Bool, true, false, not, ◌||◌, Option, none,
  some, List, [], ◌∷◌, length, ltb, leb, if◌then◌else◌, drop, String,
}
use capev.Base.Bytes.{slice, unpack_u32, xor_at, pack_u32}
use capev.Quarantine.Result.{
  Unquarantined, raised, nothing, out_of_fuel, stored, ◌>>=◌, bytearray_xor,
}

-- `struct.unpack("<H", ...)` and `struct.unpack("<BH", ...)`
abbrev pub unpack_u16 : List ℕ → Option ℕ
unpack_u16 (a ∷ b ∷ []) = some (a + 256 * b)
unpack_u16 _ = none

abbrev pub unpack_tag : List ℕ → Option (ℕ × ℕ)
unpack_tag (c ∷ a ∷ b ∷ []) = some (c, a + 256 * b)
unpack_tag _ = none

abbrev pub tag_data : List ℕ → ℕ → Option (ℕ × ℕ) → Option (ℕ × List ℕ)
tag_data xs offset none = none
tag_data xs offset (some p) = some (p.0, slice xs (offset + 3) (offset + 3 + p.1))

unfoldable pub read_trend_tag : List ℕ → ℕ → Option (ℕ × List ℕ)
read_trend_tag xs offset = tag_data xs offset (unpack_tag (slice xs offset (offset + 3)))

-- The variables that the tags set and that are read later.
pub record Tags : Type 0 where
  pub basekey : ℕ
  pub encmethod : ℕ

-- One tag. For the path and the name, `decode(error=...)` raises, as there is no such argument.
abbrev pub set_tag : ℕ → List ℕ → Tags → Option Tags
set_tag code tagdata t =
    if code == 1 || code == 2
    then none
    else if code == 4 || code == 5
    then elim (unpack_u32 tagdata) [ none ↦ none | some v ↦ some t ]
    else if code == 6
    then elim (unpack_u32 tagdata) [ none ↦ none | some v ↦ some (record t { basekey = v }) ]
    else if code == 7
    then elim (unpack_u32 tagdata) [ none ↦ none | some v ↦ some (record t { encmethod = v }) ]
    else some t

-- `for i in range(numtags): …`
unfoldable pub read_tags : ℕ → ℕ → List ℕ → Tags → Option Tags
unfolding read_trend_tag
read_tags zero offset xs t = some t
read_tags (suc n) offset xs t = elim (read_trend_tag xs offset) [
  | none ↦ none
  | some tag ↦ elim (set_tag tag.0 tag.1 t) [
    | none ↦ none
    | some t' ↦ read_tags n (offset + (3 + length tag.1)) xs t'
  ]
]

-- A byte of `struct.pack("<I", crc)`.
abbrev pub byte_of : ℕ → ℕ → ℕ
byte_of i n = n / 256 ^ i % 256

-- `curoffset`, `bytesleft` and the bytes.
abbrev pub Cursor : Type 0
Cursor = ℕ × ℕ × List ℕ

-- `for i in range(unaligned, 4)`, from `i` with `n` rounds, until no byte is left.
unfoldable pub crypt_word : ℕ → ℕ → ℕ → Cursor → Option Cursor
crypt_word zero i crc c = some c
crypt_word (suc n) i crc (cur, zero, xs) = some (cur, zero, xs)
crypt_word (suc n) i crc (cur, suc left, xs) = elim (xor_at xs cur (byte_of i crc)) [
  | none ↦ none
  | some ys ↦ crypt_word n (suc i) crc (suc cur, left, ys)
]

pub data Crypted : Type 0 where
  crypted : List ℕ → Crypted
  failed stuck : Crypted

abbrev pub crypt_on : (Cursor → Crypted) → Option Cursor → Crypted
crypt_on f none = failed
crypt_on f (some c) = f c

module _ (crc32 : List ℕ → ℕ) where
  -- `crc32(struct.pack("<I", keyval)) & 0xFFFFFFFF`, where `pack` raises for a number of 33 bits.
  abbrev pub word_key : ℕ → Option ℕ
  word_key keyval = if ltb keyval (2 ^ 32) then some (crc32 (pack_u32 keyval) % 2 ^ 32) else none

  abbrev pub word : ℕ → ℕ → Cursor → Option Cursor
  word basekey unaligned c = elim (word_key (basekey + (c.0 - unaligned))) [
    | none ↦ none
    | some crc ↦ crypt_word (4 - unaligned) unaligned crc c
  ]

  -- The loop over the words; `unaligned` is 0 after the first, so `firstiter` needs no case.
  unfoldable pub crypt : ℕ → ℕ → ℕ → Cursor → Crypted
  unfolding crypt_word
  crypt zero basekey unaligned c = if c.1 == 0 then crypted c.2 else stuck
  crypt (suc fuel) basekey unaligned c =
      if c.1 == 0 then crypted c.2 else crypt_on (crypt fuel basekey 0) (word basekey unaligned c)

  abbrev pub store_rest : ℕ → Crypted → Unquarantined
  store_rest dataoffset (crypted xs) = stored (drop dataoffset xs) "UnknownTrendFile.bin"
  store_rest dataoffset failed = raised
  store_rest dataoffset stuck = out_of_fuel

  -- After the tags. A data offset behind the end makes `bytesleft` negative and the index raise.
  unfoldable pub trend_body : ℕ → Tags → List ℕ → Unquarantined
  trend_body dataoffset t xs =
      if not (t.encmethod == 2)
      then stored (drop dataoffset xs) "UnknownTrendFile.bin"
      else if ltb (length xs) dataoffset
      then raised
      else store_rest dataoffset
          (crypt (length xs) t.basekey (dataoffset % 4) (dataoffset, length xs - dataoffset, xs))

  unfoldable pub trend_unquarantine : List ℕ → Unquarantined
  unfolding bytearray_xor
  trend_unquarantine qdata = do
    let xs = bytearray_xor qdata 0xff
    magic ← unpack_u32 (slice xs 0 4)
    dataoffset ← unpack_u32 (slice xs 4 8)
    numtags ← unpack_u16 (slice xs 8 10)
    if not (magic == 0x58425356) || ltb 15 numtags then nothing else do
      tags ← read_tags numtags 10 xs (record { basekey = 0; encmethod = 0 })
      trend_body (dataoffset + 10) tags xs

-- `xorff_unquarantine`; the name is that of the quarantine file.
unfoldable pub xorff_unquarantine : String → List ℕ → Unquarantined
unfolding bytearray_xor
xorff_unquarantine base qdata = stored (bytearray_xor qdata 0xff) base
