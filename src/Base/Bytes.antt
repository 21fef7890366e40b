-- ===== src/Base/Bytes.antt =====
-- Bytes as numbers: slices, little-endian integers, and bytes that are changed in place.
use Prim.Native.Nat.{ℕ, zero, suc, ◌+◌, ◌-◌, ◌*◌, ◌/◌, ◌%◌, ◌^◌, ◌≤◌, ◌<◌, bit_xor}
use Prim.Native.Char.{code}
use Prim.Native.String.{String}
use mathlib.Core.Bool.{Bool, true, false, ◌&&◌}
use mathlib.Core.Path.{◌≡◌, refl, ap, ◌∙◌}
use mathlib.Core.Logic.{◌≢◌, ◌⊎◌, inl, inr}
use native.Mathlib.Decide.{dec_lt}
use mathlib.Core.List.{List, [], ◌∷◌}
use mathlib.Core.Option.{Option, none, some}
use native.Mathlib.Omega.{arith}
use capev.Base.Tests.{Option-cases, ◌==◌}
use capev.Base.Lists.{get_elem?, length, length-set, set, take, drop}

-- The bytes of an ASCII text.
abbrev pub codes : String → List ℕ
codes String.[] = []
codes (String.◌∷◌ c s) = code c ∷ codes s

abbrev pub same_bytes : List ℕ → List ℕ → Bool
same_bytes [] [] = true
same_bytes [] (y ∷ ys) = false
same_bytes (x ∷ xs) [] = false
same_bytes (x ∷ xs) (y ∷ ys) = x == y && same_bytes xs ys

pub same_bytes-eq : (xs ys : List ℕ) → same_bytes xs ys ≡ true → xs ≡ ys
same_bytes-eq [] [] e = refl
same_bytes-eq [] (y ∷ ys) e = absurd (ground arith)
same_bytes-eq (x ∷ xs) [] e = absurd (ground arith)
same_bytes-eq (x ∷ xs) (y ∷ ys) e = ground (arith, same_bytes-eq xs ys)

pub same_bytes_comm : (xs ys : List ℕ) → same_bytes xs ys ≡ same_bytes ys xs
same_bytes_comm [] [] = refl
same_bytes_comm [] (y ∷ ys) = refl
same_bytes_comm (x ∷ xs) [] = refl
same_bytes_comm (x ∷ xs) (y ∷ ys) = ground (arith, same_bytes_comm xs ys)

-- `data[a:b]` for indices that are not negative.
unfoldable pub slice : List ℕ → ℕ → ℕ → List ℕ
slice xs a b = take (b - a) (drop a xs)

-- `struct.unpack("<I", data)`, which raises an error if the size is not exact.
unfoldable pub unpack_u32 : List ℕ → Option ℕ
unpack_u32 (a ∷ b ∷ c ∷ d ∷ []) = some (a + 256 * (b + 256 * (c + 256 * d)))
unpack_u32 _ = none

-- `struct.pack("<I", n)`
abbrev pub pack_u32 : ℕ → List ℕ
pack_u32 n = n % 256 ∷ n / 256 % 256 ∷ n / 65536 % 256 ∷ n / 16777216 % 256 ∷ []

pub unpack-pack : (n : ℕ) → n < 2 ^ 32 → unpack_u32 (pack_u32 n) ≡ some n
unfolding unpack_u32
unpack-pack n h =
    let whole : n % 256
          + 256 * (n / 256 % 256 + 256 * (n / 65536 % 256 + 256 * (n / 16777216 % 256)))
        ≡ n =
      omega arith in
    ap some whole

-- `data[i]`, for an index that the code keeps in range.
abbrev pub at : List ℕ → ℕ → ℕ
at xs i = elim (get_elem? xs i) [ none ↦ 0 | some v ↦ v ]

-- `data[i] ^= key`, which raises an error out of range.
unfoldable pub xor_at : List ℕ → ℕ → ℕ → Option (List ℕ)
xor_at xs i key = elim (get_elem? xs i) [ none ↦ none | some v ↦ some (set xs i (bit_xor v key)) ]

-- `for i in range(n): data[offset + i] ^= key(i)`, with the rounds left and the index of the next.
unfoldable pub xor_loop : ℕ → ℕ → ℕ → (ℕ → ℕ) → List ℕ → Option (List ℕ)
unfolding xor_at
xor_loop zero i offset key xs = some xs
xor_loop (suc n) i offset key xs = elim (xor_at xs (offset + i) (key i)) [
  | none ↦ none
  | some ys ↦ xor_loop n (suc i) offset key ys
]

get_elem?-set_other : (xs : List ℕ) (i p v : ℕ) → i ≢ p → get_elem? (set xs i v) p ≡ get_elem? xs p
get_elem?-set_other [] i p v h = refl
get_elem?-set_other (x ∷ xs) zero zero v h = absurd (h refl)
get_elem?-set_other (x ∷ xs) zero (suc p) v h = refl
get_elem?-set_other (x ∷ xs) (suc i) zero v h = refl
get_elem?-set_other (x ∷ xs) (suc i) (suc p) v h =
    get_elem?-set_other xs i p v (λ e. h (omega (arith, e)))

get_elem?-set_same :
    (xs : List ℕ) (i v w : ℕ) → get_elem? xs i ≡ some w → get_elem? (set xs i v) i ≡ some v
get_elem?-set_same [] i v w e = cc
get_elem?-set_same (x ∷ xs) zero v w e = refl
get_elem?-set_same (x ∷ xs) (suc i) v w e = get_elem?-set_same xs i v w e

-- One round of a loop that raises no error.
xor_loop_step :
    (n i offset : ℕ) (key : ℕ → ℕ) (xs ys : List ℕ)
    → xor_loop (suc n) i offset key xs ≡ some ys
    → (v : ℕ) × (get_elem? xs (offset + i) ≡ some v)
      × (xor_loop n (suc i) offset key (set xs (offset + i) (bit_xor v (key i))) ≡ some ys)
unfolding xor_loop
xor_loop_step n i offset key xs ys e = elim (Option-cases (get_elem? xs (offset + i))) [
  | inl q ↦ absurd (ground arith)
  | inr (v, q) ↦ (v, q, ground arith)
]

pub length-xor_loop :
    (n i offset : ℕ) (key : ℕ → ℕ) (xs ys : List ℕ)
    → xor_loop n i offset key xs ≡ some ys
    → length ys ≡ length xs
unfolding xor_loop
length-xor_loop zero i offset key xs ys e = ground arith
length-xor_loop (suc n) i offset key xs ys e =
    let (v, q, r) = xor_loop_step n i offset key xs ys e in
    length-xor_loop n (suc i) offset key _ ys r ∙ length-set xs (offset + i) (bit_xor v (key i))

-- The loop leaves the bytes alone that are out of its range.
pub xor_loop-outside :
    (n i offset : ℕ) (key : ℕ → ℕ) (xs ys : List ℕ) (p : ℕ)
    → xor_loop n i offset key xs ≡ some ys
    → (p < offset + i) ⊎ (offset + i + n ≤ p)
    → get_elem? ys p ≡ get_elem? xs p
unfolding xor_loop
xor_loop-outside zero i offset key xs ys p e h = ground arith
xor_loop-outside (suc n) i offset key xs ys p e h =
    let (v, q, r) = xor_loop_step n i offset key xs ys e in
    xor_loop-outside n (suc i) offset key _ ys p r (ground arith)
    ∙ get_elem?-set_other xs (offset + i) p _ (ground arith)

-- The loop changes each byte of its range once.
pub xor_loop-inside :
    (n i offset : ℕ) (key : ℕ → ℕ) (xs ys : List ℕ) (j v : ℕ)
    → xor_loop n i offset key xs ≡ some ys
    → i ≤ j
    → j < i + n
    → get_elem? xs (offset + j) ≡ some v
    → get_elem? ys (offset + j) ≡ some (bit_xor v (key j))
unfolding xor_loop
xor_loop-inside zero i offset key xs ys j v e h k g = absurd (omega arith)
xor_loop-inside (suc n) i offset key xs ys j v e h k g =
    let (w, q, r) = xor_loop_step n i offset key xs ys e in
    elim (dec_lt i j) [
      | yes l ↦
          xor_loop-inside n (suc i) offset key _ ys j v r (omega arith) (omega arith)
            (get_elem?-set_other xs (offset + i) (offset + j) _ (λ c. absurd (omega arith)) ∙ g)
      | no l ↦
          let same : j ≡ i = omega arith in
          rw same (
            xor_loop-outside n (suc i) offset key _ ys (offset + i) r (inl (omega arith))
            ∙ get_elem?-set_same xs (offset + i) _ w q
            ∙ ground (arith, ap (λ p. get_elem? xs (offset + p)) same))
    ]

get_elem?-take : (n i : ℕ) (xs : List ℕ) → i < n → get_elem? (take n xs) i ≡ get_elem? xs i
get_elem?-take zero i xs h = absurd (omega arith)
get_elem?-take (suc n) i [] h = refl
get_elem?-take (suc n) zero (x ∷ xs) h = refl
get_elem?-take (suc n) (suc i) (x ∷ xs) h = get_elem?-take n i xs (omega arith)

pub get_elem?-drop : (n i : ℕ) (xs : List ℕ) → get_elem? (drop n xs) i ≡ get_elem? xs (n + i)
get_elem?-drop zero i xs = ap (get_elem? xs) (omega arith)
get_elem?-drop (suc n) i [] = refl
get_elem?-drop (suc n) i (x ∷ xs) =
    let shift : suc (n + i) ≡ suc n + i = omega arith in
    get_elem?-drop n i xs ∙ ap (get_elem? (x ∷ xs)) shift

pub get_elem?-slice :
    (xs : List ℕ) (a b i : ℕ) → i < b - a → get_elem? (slice xs a b) i ≡ get_elem? xs (a + i)
unfolding slice
get_elem?-slice xs a b i h = get_elem?-take (b - a) i (drop a xs) h ∙ get_elem?-drop a i xs
