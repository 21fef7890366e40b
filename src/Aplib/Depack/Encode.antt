-- ===== src/Aplib/Depack/Encode.antt =====
-- The format that lib/cuckoo/common/aplib.py reads: the blocks, what they mean, and how they are
-- written. The bits of the blocks stand in tag bytes, each before the first of its bits is read, and
-- between them the bytes of the blocks.
use capev.Base.{
  ℕ, zero, suc, ◌≡◌, ◌+◌, ◌*◌, ◌/◌, ◌%◌, ◌==◌, ◌≤◌, ◌<◌, true, false, Option, none, some, List, [],
  ◌∷◌, ◌++◌, length, leb, ltb, if◌then◌else◌,
}
use capev.Aplib.Reader.{copy_back}

-- The bits that are left of the tag, and the bytes.
abbrev pub Feed : Type 0
Feed = List ℕ × List ℕ

abbrev pub tag_of : List ℕ → ℕ
tag_of (a ∷ b ∷ c ∷ d ∷ e ∷ f ∷ g ∷ h ∷ []) =
    128 * (a % 2)
    + 64 * (b % 2)
    + 32 * (c % 2)
    + 16 * (d % 2)
    + 8 * (e % 2)
    + 4 * (f % 2)
    + 2 * (g % 2)
    + h % 2
tag_of _ = 0

-- A bit in front of what follows; the first bit of a tag writes the tag.
unfoldable pub put_bit : ℕ → Feed → Feed
put_bit b (p, source) = if length p == 7 then ([], tag_of (b ∷ p) ∷ source) else (b ∷ p, source)

abbrev pub put_byte : ℕ → Feed → Feed
put_byte c (p, source) = (p, c ∷ source)

-- A number of at least 2: its binary digits after the first, each with a bit that says whether more
-- follow, the last with `last`.
unfoldable pub put_gamma : ℕ → ℕ → ℕ → Feed → Feed
put_gamma zero n last f = f
put_gamma (suc k) n last f =
    let f' = put_bit n (put_bit last f) in
    elim (leb (n / 2) 1) [ true ↦ f' | false ↦ put_gamma k (n / 2) 1 f' ]

abbrev pub gamma : ℕ → Feed → Feed
gamma n f = put_gamma n n 0 f

-- One byte; one byte from a distance, or zero; two bytes or three; a block with its own distance or
-- with the last one.
pub data Block : Type 0 where
  byte near : ℕ → Block
  pair far : ℕ → ℕ → Block
  again : ℕ → Block

-- The numbers that the format can hold. The last distance is only used after a byte.
abbrev pub IsBlock : ℕ → Block → Type 0
IsBlock lwm (byte c) = Unit
IsBlock lwm (near offs) = offs < 16
IsBlock lwm (pair offs n) = (1 ≤ offs) × (n < 2)
IsBlock lwm (far offs n) = 2 ≤ n
IsBlock lwm (again n) = (lwm ≡ 0) × (2 ≤ n)

abbrev pub lwm_after : Block → ℕ
lwm_after (byte c) = 0
lwm_after (near offs) = 0
lwm_after (pair offs n) = 1
lwm_after (far offs n) = 1
lwm_after (again n) = 1

abbrev pub AreBlocks : ℕ → List Block → Type 0
AreBlocks lwm [] = Unit
AreBlocks lwm (b ∷ bs) = IsBlock lwm b × AreBlocks (lwm_after b) bs

abbrev pub put_block : ℕ → Block → Feed → Feed
put_block lwm (byte c) f = put_bit 0 (put_byte c f)
put_block lwm (near offs) f = put_bit 1 (
    put_bit 1
      (put_bit 1 (put_bit (offs / 8) (put_bit (offs / 4) (put_bit (offs / 2) (put_bit offs f))))))
put_block lwm (pair offs n) f = put_bit 1 (put_bit 1 (put_bit 0 (put_byte (2 * offs + n) f)))
put_block lwm (far offs n) f = put_bit 1 (
    put_bit 0
      (gamma (offs / 256 + (if lwm == 0 then 3 else 2)) (put_byte (offs % 256) (gamma n f))))
put_block lwm (again n) f = put_bit 1 (put_bit 0 (gamma 2 (gamma n f)))

-- The blocks, and the end: a pair with the distance 0.
unfoldable pub encode : ℕ → List Block → Feed → Feed
encode lwm [] f = put_bit 1 (put_bit 1 (put_bit 0 (put_byte 0 f)))
encode lwm (b ∷ bs) f = put_block lwm b (encode (lwm_after b) bs f)

-- The length of a block with its own distance; the longer lengths cost no more bits.
abbrev pub full_length : ℕ → ℕ → ℕ
full_length offs n =
    if ltb offs 128
    then n + 2
    else if ltb offs 1280
    then n
    else if ltb offs 32000
    then n + 1
    else n + 2

-- What a block adds to the bytes before it, if its distance is not too far; and the last distance.
unfoldable pub play : Block → Option ℕ → List ℕ → Option (List ℕ)
play (byte c) r0 xs = some (xs ++ (c ∷ []))
play (near offs) r0 xs = if offs == 0 then some (xs ++ (0 ∷ [])) else copy_back (some offs) 1 xs
play (pair offs n) r0 xs = copy_back (some offs) (2 + n) xs
play (far offs n) r0 xs = copy_back (some offs) (full_length offs n) xs
play (again n) r0 xs = copy_back r0 n xs

abbrev pub distance : Block → Option ℕ → Option ℕ
distance (byte c) r0 = r0
distance (near offs) r0 = r0
distance (pair offs n) r0 = some offs
distance (far offs n) r0 = some offs
distance (again n) r0 = r0

unfoldable pub play_all : List Block → Option ℕ → List ℕ → Option (List ℕ)
play_all [] r0 xs = some xs
play_all (b ∷ bs) r0 xs = elim (play b r0 xs) [
  | none ↦ none
  | some ys ↦ play_all bs (distance b r0) ys
]
