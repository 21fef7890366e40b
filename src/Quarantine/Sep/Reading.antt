-- ===== src/Quarantine/Sep/Reading.antt =====
-- Reading tags with `read_sep_tag` of lib/cuckoo/common/quarantine.py at an offset behind a known start.
use capev.Base.{
  ℕ, suc, ◌+◌, ◌-◌, ◌*◌, ◌/◌, ◌%◌, ◌^◌, ◌<◌, ◌≡◌, refl, ap, sym, ◌∙◌, some, List, [], ◌∷◌, ◌++◌,
  take, length, length-append, append_assoc, drop_past, get_elem?, set, bit_xor, arith,
}
use capev.Base.Bits.{xor_twice, xor_comm}
use capev.Base.Bytes.{slice, pack_u32, unpack-pack, xor_loop, xor_at}
use capev.Quarantine.Result.{bytearray_xor}
use capev.Quarantine.Sep.{unpack_u64, read_sep_tag}

-- The code 9 and the size of a container.
abbrev pub head : ℕ → List ℕ
head n = 9 ∷ pack_u32 n

-- `struct.pack("<Q", n)`
abbrev pub pack_u64 : ℕ → List ℕ
pack_u64 n = pack_u32 (n % 2 ^ 32) ++ pack_u32 (n / 2 ^ 32)

pub get_elem?-append :
    {A : Type 0} (xs : List A) (y : A) (ys : List A)
    → get_elem? (xs ++ (y ∷ ys)) (length xs) ≡ some y
get_elem?-append [] y ys = refl
get_elem?-append (x ∷ xs) y ys = get_elem?-append xs y ys

set-append :
    (xs : List ℕ) (y v : ℕ) (ys : List ℕ) → set (xs ++ (y ∷ ys)) (length xs) v ≡ xs ++ (v ∷ ys)
set-append [] y v ys = refl
set-append (x ∷ xs) y v ys = ap (◌∷◌ x) (set-append xs y v ys)

pub slice-append :
    (xs ys : List ℕ) (a b : ℕ) → slice (xs ++ ys) (length xs + a) (length xs + b) ≡ slice ys a b
unfolding slice
slice-append xs ys a b =
    let size : length xs + b - (length xs + a) ≡ b - a = omega arith in
    rw (size, drop_past xs a ys) refl

pub length-bytearray_xor : (xs : List ℕ) (key : ℕ) → length (bytearray_xor xs key) ≡ length xs
unfolding bytearray_xor
length-bytearray_xor [] key = refl
length-bytearray_xor (x ∷ xs) key = ap suc (length-bytearray_xor xs key)

xor_back : (x key : ℕ) → bit_xor (bit_xor x key) key ≡ x
xor_back x key = xor_comm (bit_xor x key) key ∙ ap (bit_xor key) (xor_comm x key) ∙ xor_twice key x

pub bytearray_xor_twice : (xs : List ℕ) (key : ℕ) → bytearray_xor (bytearray_xor xs key) key ≡ xs
unfolding bytearray_xor
bytearray_xor_twice [] key = refl
bytearray_xor_twice (x ∷ xs) key = cc (xor_back x key, bytearray_xor_twice xs key)

xor_at-append :
    (pre : List ℕ) (y key p : ℕ) (rest : List ℕ)
    → p ≡ length pre
    → xor_at (pre ++ (y ∷ rest)) p key ≡ some (pre ++ (bit_xor y key ∷ rest))
unfolding xor_at
xor_at-append pre y key p rest e =
    rw (e, get_elem?-append pre y rest, xor_at)
      (ap some (
        ap (λ q. set (pre ++ (y ∷ rest)) q (bit_xor y key)) e
        ∙ set-append pre y (bit_xor y key) rest))

-- Changing the bytes of a range in place gives the original bytes back.
pub xor_loop-append :
    (c pre rest : List ℕ) (i offset key : ℕ)
    → offset + i ≡ length pre
    → xor_loop (length c) i offset (λ j. key) (pre ++ (bytearray_xor c key ++ rest))
      ≡ some (pre ++ (c ++ rest))
unfolding xor_loop bytearray_xor
xor_loop-append [] pre rest i offset key e = refl
xor_loop-append (x ∷ c) pre rest i offset key e =
    let tail = bytearray_xor c key ++ rest in
    rw (xor_at-append pre (bit_xor x key) key (offset + i) tail e, xor_back x key, xor_loop)
      (ap (xor_loop (length c) (suc i) offset (λ j. key)) (sym (append_assoc pre (x ∷ []) tail))
        ∙ xor_loop-append c (pre ++ (x ∷ [])) rest (suc i) offset key
            (omega (arith, e, length-append pre (x ∷ [])))
        ∙ ap some (append_assoc pre (x ∷ []) (c ++ rest)))

four_bytes :
    (n : ℕ)
    → n < 2 ^ 32
    → n % 256 + 256 * (n / 256 % 256 + 256 * (n / 65536 % 256 + 256 * (n / 16777216 % 256))) ≡ n
four_bytes n h = omega arith

pub unpack_u64-pack : (n : ℕ) → n < 2 ^ 64 → unpack_u64 (pack_u64 n) ≡ some n
unfolding unpack_u64
unpack_u64-pack n h =
    let high : n / 2 ^ 32 < 2 ^ 32 = omega arith in
    ap some (omega (arith, four_bytes (n % 2 ^ 32) (omega arith), four_bytes (n / 2 ^ 32) high))

slice-head : (n : ℕ) (xs : List ℕ) → slice (head n ++ xs) 1 5 ≡ pack_u32 n
unfolding slice
slice-head n xs = refl

pub slice-contents :
    (pre xs : List ℕ) (n : ℕ)
    → slice (pre ++ (head n ++ xs)) (length pre + 5) (length pre + 5 + n) ≡ take n xs
unfolding slice
slice-contents pre xs n =
    let stop : length pre + 5 + n - (length pre + 5) ≡ n = omega arith in
    rw (stop, drop_past pre 5 (head n ++ xs)) refl

slice-size : (n : ℕ) (xs : List ℕ) → slice (4 ∷ (pack_u64 n ++ xs)) 1 9 ≡ pack_u64 n
unfolding slice
slice-size n xs = refl

-- Reading the tag of a container.
pub read_sep_tag-container :
    (pre xs : List ℕ) (n : ℕ)
    → n < 2 ^ 32
    → read_sep_tag (pre ++ (head n ++ xs)) (length pre)
      ≡ some record { code = 9; size = 5; value = n; contents = take n xs }
unfolding read_sep_tag
read_sep_tag-container pre xs n h =
    rw
      (
        get_elem?-append pre 9 (pack_u32 n ++ xs),
        slice-append pre (head n ++ xs) 1 5,
        read_sep_tag,
        slice-head n xs,
        unpack-pack n h,
        slice-contents pre xs n,
      )
      refl

-- Reading the tag with the size of the file.
pub read_sep_tag-size :
    (pre xs : List ℕ) (n : ℕ)
    → n < 2 ^ 64
    → read_sep_tag (pre ++ (4 ∷ (pack_u64 n ++ xs))) (length pre)
      ≡ some record { code = 4; size = 9; value = n; contents = [] }
unfolding read_sep_tag
read_sep_tag-size pre xs n h =
    rw
      (
        get_elem?-append pre 4 (pack_u64 n ++ xs),
        slice-append pre (4 ∷ (pack_u64 n ++ xs)) 1 9,
        read_sep_tag,
        slice-size n xs,
        unpack_u64-pack n h,
      )
      refl
