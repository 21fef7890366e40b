-- ===== src/Aplib/Header.antt =====
-- `strip_header` and `aplib_decompress` of lib/cuckoo/common/aplib.py.
use capev.Base.{
  ℕ, ◌+◌, ◌-◌, ◌^◌, ◌<◌, ◌≡◌, ap, ◌∙◌, Option, none, some, List, ◌++◌, length, take, drop,
  if◌then◌else◌, arith, take_exact, drop_past,
}
use capev.Base.Bytes.{unpack-pack, codes, same_bytes, slice, unpack_u32, pack_u32}
use capev.Aplib.Depack.{Unpacked, decompress}

-- `data[start_offset : length + start_offset]`, with the numbers of the header; `none` is the error
-- of `struct.unpack` on a short header.
abbrev pub cut : Option ℕ → Option ℕ → List ℕ → Option (List ℕ)
cut (some start_offset) (some n) source = some (slice source start_offset (n + start_offset))
cut (some start_offset) none source = none
cut none n source = none

unfoldable pub strip_header : List ℕ → Option (List ℕ)
strip_header source =
    if same_bytes (take 4 source) (codes "AP32")
    then cut (unpack_u32 (slice source 4 8)) (unpack_u32 (slice source 8 12)) source
    else some (slice source 0 (length source))

abbrev pub decompressed : Option (List ℕ) → Option Unpacked
decompressed none = none
decompressed (some enc) = some (decompress enc)

unfoldable pub aplib_decompress : List ℕ → Option Unpacked
aplib_decompress data_in = decompressed (strip_header data_in)

-- A header with the place and the length of the data.
abbrev pub with_header : ℕ → ℕ → List ℕ → List ℕ
with_header start_offset n rest = codes "AP32" ++ (pack_u32 start_offset ++ (pack_u32 n ++ rest))

slice-with_header :
    (a n : ℕ) (extra body rest : List ℕ)
    → slice
        (with_header a n (extra ++ (body ++ rest)))
        (12 + length extra)
        (length body + (12 + length extra))
      ≡ body
unfolding slice
slice-with_header a n extra body rest =
    let first = codes "AP32" ++ (pack_u32 a ++ pack_u32 n) in
    let size : length body + (12 + length extra) - (12 + length extra) ≡ length body =
      omega arith in
    let none_left : length extra ≡ length extra + 0 = omega arith in
    rw size (
      ap (take (length body)) (
        drop_past first (length extra) (extra ++ (body ++ rest))
        ∙ ap (λ k. drop k (extra ++ (body ++ rest))) none_left
        ∙ drop_past extra 0 (body ++ rest))
      ∙ take_exact body rest)

offset-with_header :
    (a n : ℕ) (rest : List ℕ) → a < 2 ^ 32 → unpack_u32 (slice (with_header a n rest) 4 8) ≡ some a
unfolding slice
offset-with_header a n rest h = unpack-pack a h

length-with_header :
    (a n : ℕ) (rest : List ℕ) → n < 2 ^ 32 → unpack_u32 (slice (with_header a n rest) 8 12) ≡ some n
unfolding slice
length-with_header a n rest h = unpack-pack n h

strip-with_header :
    (a n : ℕ) (rest : List ℕ)
    → a < 2 ^ 32
    → n < 2 ^ 32
    → strip_header (with_header a n rest) ≡ some (slice (with_header a n rest) a (n + a))
unfolding strip_header
strip-with_header a n rest h k =
    let source = with_header a n rest in
    ap (λ o. cut o (unpack_u32 (slice source 8 12)) source) (offset-with_header a n rest h)
    ∙ ap (λ o. cut (some a) o source) (length-with_header a n rest k)

-- With a header that names the place and the size of the data, both less than 2 ^ 32,
-- aplib_decompress gives what decompress gives for the data alone, whatever further fields stand
-- before it and whatever follows it.
aplib_decompress-with_header :
    (extra body rest : List ℕ)
    → 12 + length extra < 2 ^ 32
    → length body < 2 ^ 32
    → aplib_decompress (with_header (12 + length extra) (length body) (extra ++ (body ++ rest)))
      ≡ some (decompress body)
unfolding aplib_decompress
aplib_decompress-with_header extra body rest h k =
    let a = 12 + length extra in
    let n = length body in
    ap decompressed (strip-with_header a n (extra ++ (body ++ rest)) h k)
    ∙ ap (λ l. some (decompress l)) (slice-with_header a n extra body rest)
