-- ===== src/Quarantine/Sep/Chunks.antt =====
-- Files in the format that `sep_unquarantine` of lib/cuckoo/common/quarantine.py reads, made from the
-- chunks of the original file.
use capev.Base.{
  ℕ, zero, suc, ◌+◌, ◌^◌, ◌<◌, ◌≤◌, ◌==◌, ◌≡◌, refl, ap, sym, ◌∙◌, true, false, some, List, [], ◌∷◌,
  ◌++◌, take, length, length-append, append_assoc, append_empty, take_exact, arith, All,
}
use capev.Base.Int.{pos, ltb_ℤ, ◌+ℤ◌}
use capev.Base.Bytes.{xor_loop}
use capev.Quarantine.Result.{bytearray_xor}
use capev.Quarantine.Sep.{Scan, round, scan, xor_container}
use capev.Quarantine.Sep.Reading.{
  head, pack_u64, slice-contents, length-bytearray_xor, xor_loop-append, read_sep_tag-container,
}

-- A container with the bytes of a chunk.
abbrev pub sep_chunk : List ℕ → List ℕ
sep_chunk c = head (length c) ++ bytearray_xor c 0xff

abbrev pub sep_chunks : List (List ℕ) → List ℕ
sep_chunks [] = []
sep_chunks (c ∷ cs) = sep_chunk c ++ sep_chunks cs

abbrev pub joined : List (List ℕ) → List ℕ
joined [] = []
joined (c ∷ cs) = c ++ joined cs

-- The two tags before the chunks, with the size of the original file.
abbrev pub sep_size : ℕ → List ℕ
sep_size n = head 8 ++ (pack_u64 n ++ (4 ∷ pack_u64 n))

-- A file before its bytes are changed by 0x5a.
abbrev pub sep_file : List ℕ → List (List ℕ) → List ℕ
sep_file header cs = header ++ (sep_size (length (joined cs)) ++ sep_chunks cs)

-- The scan at a chunk: what is read, the rest, the bytes collected so far and their number.
abbrev pub chunk_scan : ℕ → List ℕ → List ℕ → ℕ → List ℕ → Scan
chunk_scan total pre rest k out = record {
  bytes = pre ++ rest;
  offset = length pre;
  decode_next_container = true;
  xor_next_container = true;
  has_header = false;
  binsize = total;
  collectedsize = pos k;
  bindata = out;
  lastlen = total;
}

add-pos : (a b : ℕ) → pos a +ℤ pos b ≡ pos (a + b)
add-pos a b = ground arith

xor_loop-chunk :
    (pre c rest : List ℕ) (n : ℕ)
    → xor_loop
        (length c)
        0
        (length pre + 5)
        (λ i. 0xff)
        (pre ++ (head n ++ (bytearray_xor c 0xff ++ rest)))
      ≡ some (pre ++ (head n ++ (c ++ rest)))
xor_loop-chunk pre c rest n =
    ap (xor_loop (length c) 0 (length pre + 5) (λ i. 0xff))
      (sym (append_assoc pre (head n) (bytearray_xor c 0xff ++ rest)))
    ∙ xor_loop-append c (pre ++ head n) rest 0 (length pre + 5) 0xff
        (omega (arith, length-append pre (head n)))
    ∙ ap some (append_assoc pre (head n) (c ++ rest))

chunk-contents :
    (c rest : List ℕ) → take (length c) (bytearray_xor c 0xff ++ rest) ≡ bytearray_xor c 0xff
chunk-contents c rest =
    ap (λ n. take n (bytearray_xor c 0xff ++ rest)) (sym (length-bytearray_xor c 0xff))
    ∙ take_exact (bytearray_xor c 0xff) rest

xor_container-chunk :
    (total k : ℕ) (pre c rest out : List ℕ)
    → k + length c ≤ total
    → xor_container (length c) (chunk_scan total pre (sep_chunk c ++ rest) k out)
      ≡ some (record (chunk_scan total pre [] (k + length c) (out ++ c)) {
        bytes = pre ++ (head (length c) ++ (c ++ rest));
      })
unfolding xor_container
xor_container-chunk total k pre c rest out h =
    let fits : ltb_ℤ (pos total) (pos (k + length c)) ≡ false = ground arith in
    rw
      (
        xor_loop-chunk pre c rest (length c),
        xor_container,
        add-pos k (length c),
        fits,
        slice-contents pre (c ++ rest) (length c),
        take_exact c rest,
      )
      refl

length-chunk :
    (pre c : List ℕ) → length (pre ++ (head (length c) ++ c)) ≡ length pre + (5 + length c)
length-chunk pre c = omega (arith, length-append pre (head (length c) ++ c))

-- One round takes in one chunk.
round-chunk :
    (total k : ℕ) (pre c rest out : List ℕ)
    → length c < 2 ^ 32
    → k + length c ≤ total
    → round (chunk_scan total pre (sep_chunk c ++ rest) k out)
      ≡ some (chunk_scan total (pre ++ (head (length c) ++ c)) rest (k + length c) (out ++ c))
unfolding round
round-chunk total k pre c rest out h fits =
    rw
      (
        read_sep_tag-container pre (bytearray_xor c 0xff ++ rest) (length c) h,
        chunk-contents c rest,
        length-bytearray_xor c 0xff,
        xor_container-chunk total k pre c rest out fits,
        append_assoc pre (head (length c) ++ c) rest,
        length-chunk pre c,
        round,
      )
      refl

length-sep_chunk : (c rest : List ℕ) → length (sep_chunk c ++ rest) ≡ 5 + length c + length rest
length-sep_chunk c rest =
    omega (arith, length-append (bytearray_xor c 0xff) rest, length-bytearray_xor c 0xff)

pub length-chunks-pos :
    (c : List ℕ) (cs : List (List ℕ)) → (n : ℕ) × (length (sep_chunks (c ∷ cs)) ≡ suc n)
length-chunks-pos c cs =
    (4 + length c + length (sep_chunks cs), omega (arith, length-sep_chunk c (sep_chunks cs)))

-- Each size fits its field.
abbrev pub Fits : List (List ℕ) → Type 0
Fits = All (λ c. length c < 2 ^ 32)

-- The loop stops behind the last chunk with all the bytes.
pub scan-chunks :
    (fuel total k filesize : ℕ) (pre out c : List ℕ) (cs : List (List ℕ))
    → length cs < fuel
    → Fits (c ∷ cs)
    → k + length (joined (c ∷ cs)) ≤ total
    → filesize ≡ length pre + length (sep_chunks (c ∷ cs))
    → (s : Scan) × (s.bindata ≡ out ++ joined (c ∷ cs))
      × (scan fuel filesize (chunk_scan total pre (sep_chunks (c ∷ cs)) k out) ≡ some s)
unfolding scan
scan-chunks zero total k filesize pre out c cs f h b e = absurd (omega arith)
scan-chunks (suc fuel) total k filesize pre out c [] f h b e =
    let fits : k + length c ≤ total = omega (arith, length-append c []) in
    let end : (length pre + (5 + length c) == filesize) ≡ true =
      ground (arith, length-sep_chunk c []) in
    (
      chunk_scan total (pre ++ (head (length c) ++ c)) [] (k + length c) (out ++ c),
      rw (append_empty c) refl,
      rw (round-chunk total k pre c [] out h.0 fits, scan, length-chunk pre c, end) refl,
    )
scan-chunks (suc fuel) total k filesize pre out c (d ∷ ds) f h b e =
    let rest = sep_chunks (d ∷ ds) in
    let all_fit : k + (length c + length (joined (d ∷ ds))) ≤ total =
      omega (arith, length-append c (joined (d ∷ ds))) in
    let fits : k + length c ≤ total = omega arith in
    let (n, more) = length-chunks-pos d ds in
    let on : (length (pre ++ (head (length c) ++ c)) == filesize) ≡ false =
      ground (arith, length-sep_chunk c rest, length-chunk pre c) in
    let (s, all, ends) =
      scan-chunks fuel total (k + length c) filesize (pre ++ (head (length c) ++ c)) (out ++ c) d ds
        (omega arith) h.1 (omega arith)
        (omega (arith, length-sep_chunk c rest, length-chunk pre c)) in
    (
      s,
      all ∙ append_assoc out c (joined (d ∷ ds)),
      rw (round-chunk total k pre c rest out h.0 fits, scan, on) ends,
    )
