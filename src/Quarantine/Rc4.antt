-- ===== src/Quarantine/Rc4.antt =====
-- `rc4_decrypt` and the key scheduling of lib/cuckoo/common/quarantine.py. A permutation table holds
-- 256 entries; the code indexes it with numbers below 256 only.
use mathlib.Core.Path.{ap₂}
use capev.Base.{
  ℕ, zero, suc, ◌+◌, ◌%◌, ◌≡◌, refl, ap, List, [], ◌∷◌, arith, length, set, length-set, Option,
  none, some, bit_xor,
}
use capev.Base.Bytes.{at}
use capev.Base.Bits.{xor_twice}

-- `tmp = sbox[i]; sbox[i] = sbox[j]; sbox[j] = tmp`
abbrev pub swap : ℕ → ℕ → List ℕ → List ℕ
swap i j s = set (set s i (at s j)) j (at s i)

-- The loop of `rc4_decrypt` over the bytes that are left.
unfoldable pub rc4_loop : ℕ → ℕ → List ℕ → List ℕ → List ℕ
rc4_loop i j s [] = []
rc4_loop i j s (char ∷ rest) =
    let i' = (i + 1) % 256 in
    let j' = (j + at s i') % 256 in
    let s' = swap i' j' s in
    bit_xor (at s' ((at s' i' + at s' j') % 256)) char ∷ rc4_loop i' j' s' rest

unfoldable pub rc4_decrypt : List ℕ → List ℕ → List ℕ
unfolding rc4_loop
rc4_decrypt sbox xs = rc4_loop 0 0 sbox xs

rc4_loop_twice : (i j : ℕ) (s xs : List ℕ) → rc4_loop i j s (rc4_loop i j s xs) ≡ xs
unfolding rc4_loop
rc4_loop_twice i j s [] = refl
rc4_loop_twice i j s (char ∷ rest) =
    let i' = (i + 1) % 256 in
    let j' = (j + at s i') % 256 in
    let s' = swap i' j' s in
    ap₂ ◌∷◌ (xor_twice (at s' ((at s' i' + at s' j') % 256)) char) (rc4_loop_twice i' j' s' rest)

-- Decrypting with a table what was encrypted with it gives the data back, for every table: the two
-- are one operation.
pub rc4_decrypt_twice : (sbox xs : List ℕ) → rc4_decrypt sbox (rc4_decrypt sbox xs) ≡ xs
unfolding rc4_decrypt
rc4_decrypt_twice sbox xs = rc4_loop_twice 0 0 sbox xs

-- The ciphertext is as long as the data.
pub length-rc4_decrypt : (sbox xs : List ℕ) → length (rc4_decrypt sbox xs) ≡ length xs
unfolding rc4_decrypt
length-rc4_decrypt sbox xs = go 0 0 sbox xs
  where
    go : (i j : ℕ) (s xs : List ℕ) → length (rc4_loop i j s xs) ≡ length xs
    go i j s [] = refl
    go i j s (char ∷ rest) =
        let i' = (i + 1) % 256 in
        let j' = (j + at s i') % 256 in ap suc (go i' j' (swap i' j' s) rest)

-- Python's sequences: `range(n)` has items, and refuses an assignment to one.
pub data Sequence : Type 0 where
  range : ℕ → Sequence
  list : List ℕ → Sequence

abbrev pub item : Sequence → ℕ → ℕ
item (range n) i = i
item (list xs) i = at xs i

abbrev pub with_item : Sequence → ℕ → ℕ → Option Sequence
with_item (range n) i v = none
with_item (list xs) i v = some (list (set xs i v))

-- `sbox[i] = sbox[j]; sbox[j] = tmp`; a `TypeError` is `none`.
unfoldable pub swap_items : ℕ → ℕ → Sequence → Option Sequence
swap_items i j s = elim (with_item s i (item s j)) [
  | none ↦ none
  | some t ↦ with_item t j (item s i)
]

-- The loop of `mse_ksa` and `mbam_ksa`, with the rounds left and the index of the next.
unfoldable pub ksa_loop : ℕ → ℕ → ℕ → (ℕ → ℕ) → Sequence → Option Sequence
unfolding swap_items
ksa_loop zero i j key s = some s
ksa_loop (suc n) i j key s =
    let j' = (j + item s i + key i) % 256 in
    elim (swap_items i j' s) [ none ↦ none | some t ↦ ksa_loop n (suc i) j' key t ]

abbrev pub up_from : ℕ → ℕ → List ℕ
up_from zero i = []
up_from (suc n) i = i ∷ up_from n (suc i)

abbrev pub contents : Option Sequence → Option (List ℕ)
contents (some (list xs)) = some xs
contents _ = none

-- `sbox = list(range(256))`; `key` is the MD5 digest of the hardcoded text.
unfoldable pub mbam_ksa : List ℕ → Option (List ℕ)
mbam_ksa key = contents (ksa_loop 256 0 0 (λ i. at key (i % length key)) (list (up_from 256 0)))

-- On a list the scheduling always ends with a table of the same size.
pub ksa_loop-total :
    (n i j : ℕ) (key : ℕ → ℕ) (xs : List ℕ)
    → (ys : List ℕ) × (ksa_loop n i j key (list xs) ≡ some (list ys)) × (length ys ≡ length xs)
unfolding ksa_loop
ksa_loop-total zero i j key xs = (xs, refl, refl)
ksa_loop-total (suc n) i j key xs =
    let j' = (j + at xs i + key i) % 256 in
    let (ys, e, l) = ksa_loop-total n (suc i) j' key (swap i j' xs) in
    (
      ys,
      e,
      omega (arith, l, length-set (set xs i (at xs j')) j' (at xs i), length-set xs i (at xs j')),
    )

-- On a `range` it raises an error in the first round.
pub ksa_loop-range : (n i j k : ℕ) (key : ℕ → ℕ) → ksa_loop (suc n) i j key (range k) ≡ none
unfolding ksa_loop
ksa_loop-range n i j k key = refl

pub mbam_ksa-total :
    (key : List ℕ) → (sbox : List ℕ) × (mbam_ksa key ≡ some sbox) × (length sbox ≡ 256)
unfolding mbam_ksa
mbam_ksa-total key =
    let (sbox, e, l) = ksa_loop-total 256 0 0 (λ i. at key (i % length key)) (up_from 256 0) in
    (sbox, ap contents e, l)
