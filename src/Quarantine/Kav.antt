-- ===== src/Quarantine/Kav.antt =====
-- The decoder for Kaspersky, `kav_unquarantine` of lib/cuckoo/common/quarantine.py.
pub mod Body
use capev.Base.{
  ℕ, zero, suc, ◌+◌, ◌%◌, ◌<◌, ◌≤◌, ◌==◌, ◌≡◌, refl, ◌≢◌, Bool, true, false, not, ◌||◌, List, [],
  ◌∷◌, arith, length, Option, none, some, ltb, leb, if◌then◌else◌, String, str_eq, get_elem?,
  bit_xor,
}
use capev.Base.Bytes.{at, slice, unpack_u32, xor_loop}
use capev.Quarantine.Result.{Unquarantined, raised, nothing, out_of_fuel, stored, ◌>>=◌}

abbrev pub kav_key : List ℕ
kav_key = 0xe2 ∷ 0x45 ∷ 0x48 ∷ 0xec ∷ 0x69 ∷ 0x0e ∷ 0x5c ∷ 0xac ∷ []

-- `key[i % len(key)]`
abbrev pub kav_byte : ℕ → ℕ
kav_byte i = at kav_key (i % 8)

-- Decrypting the body and storing it.
unfoldable pub kav_body : ℕ → ℕ → String → List ℕ → Unquarantined
kav_body headerlen origlen name xs = do
  ys ← xor_loop origlen 0 headerlen kav_byte xs
  stored (slice ys headerlen (headerlen + origlen)) name

-- Python's functions on texts are parameters: `text` is `str(...).rstrip("\0")` of a byte array, and
-- `path_text` the chain of `str`, `encode`, `decode` and `rstrip`.
module _ (text path_text : List ℕ → String) where
  -- `origname` after an entry of the metadata.
  abbrev pub entry_name : ℕ → ℕ → ℕ → String → List ℕ → String
  entry_name cur len idlen name xs =
      if str_eq (text (slice xs (cur + 8) (cur + 8 + idlen))) "cNP_QB_FULLNAME"
      then path_text (slice xs (cur + 8 + idlen) (cur + 4 + len))
      else name

  -- The loop over the entries of the metadata, from the offset and the length of the next entry;
  -- `stop` is `metaoffset + metalen`.
  unfoldable pub kav_entries : ℕ → ℕ → ℕ → ℕ → ℕ → ℕ → String → List ℕ → Unquarantined
  kav_entries zero headerlen origlen stop cur len name xs = out_of_fuel
  kav_entries (suc fuel) headerlen origlen stop cur zero name xs =
      kav_body headerlen origlen name xs
  kav_entries (suc fuel) headerlen origlen stop cur (suc l) name xs = do
    ys ← xor_loop (suc l) 0 (cur + 4) kav_byte xs
    idlen ← unpack_u32 (slice ys (cur + 4) (cur + 8))
    let name' = entry_name cur (suc l) idlen name ys
    let next = cur + 4 + suc l
    elim (leb stop next) [
      | true ↦ kav_body headerlen origlen name' ys
      | false ↦
          unpack_u32 (slice ys next (next + 4))
          >>= (λ len. kav_entries fuel headerlen origlen stop next len name' ys)
    ]

  -- From the fields of the header on. An entry takes more than four bytes, so the loop ends after
  -- `metalen + 1` rounds at most.
  unfoldable pub kav_checked : ℕ → ℕ → ℕ → ℕ → List ℕ → Unquarantined
  kav_checked headerlen metaoffset metalen origlen xs =
      if ltb (length xs) (headerlen + origlen + metalen)
      then nothing
      else if ltb metaoffset (headerlen + origlen)
      then nothing
      else unpack_u32 (slice xs metaoffset (metaoffset + 4)) >>= (λ len.
        kav_entries (metalen + 1) headerlen origlen (metaoffset + metalen) metaoffset len
          "KAVDequarantineFile" xs)

  unfoldable pub kav_unquarantine : List ℕ → Unquarantined
  kav_unquarantine xs = do
    magic ← unpack_u32 (slice xs 0 4)
    if not (magic == 0x42514c4b) then nothing else do
      headerlen ← unpack_u32 (slice xs 8 12)
      metaoffset ← unpack_u32 (slice xs 0x10 0x14)
      metalen ← unpack_u32 (slice xs 0x20 0x24)
      origlen ← unpack_u32 (slice xs 0x30 0x34)
      kav_checked headerlen metaoffset metalen origlen xs
