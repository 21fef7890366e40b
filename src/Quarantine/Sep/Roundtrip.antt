-- ===== src/Quarantine/Sep/Roundtrip.antt =====
-- `sep_unquarantine` of lib/cuckoo/common/quarantine.py on the files that are made from chunks.
use capev.Base.{
  ℕ, suc, ◌+◌, ◌^◌, ◌<◌, ◌==◌, ◌≡◌, refl, ap, sym, ◌∙◌, true, false, some, List, [], ◌∷◌, ◌++◌,
  length, length-append, append_assoc, arith, String,
}
use capev.Base.Bytes.{slice, unpack_u32}
use capev.Quarantine.Result.{stored, bytearray_xor}
use capev.Quarantine.Sep.{Scan, round, scan, start_scan, sep_unquarantine}
use capev.Quarantine.Sep.Reading.{
  head, pack_u64, slice-append, bytearray_xor_twice, length-bytearray_xor, unpack_u64-pack,
  read_sep_tag-container, read_sep_tag-size,
}
use capev.Quarantine.Sep.Chunks.{
  sep_chunks, joined, sep_size, sep_file, chunk_scan, length-chunks-pos, Fits, scan-chunks,
}

-- The scan at the offset `length pre`, before and after the announcement of the chunks.
abbrev first_scan : List ℕ → List ℕ → Scan
first_scan pre rest = record (start_scan (pre ++ rest)) { offset = length pre }

abbrev second_scan : ℕ → List ℕ → List ℕ → Scan
second_scan n pre rest = record (first_scan pre rest) {
  decode_next_container = true;
  xor_next_container = true;
  lastlen = n;
}

slice-announced : (n : ℕ) (rest : List ℕ) → slice (head 8 ++ (pack_u64 n ++ rest)) 5 13 ≡ pack_u64 n
unfolding slice
slice-announced n rest = refl

length-first : (pre : List ℕ) (n : ℕ) → length (pre ++ (head 8 ++ pack_u64 n)) ≡ length pre + 13
length-first pre n = omega (arith, length-append pre (head 8 ++ pack_u64 n))

round-first :
    (n : ℕ) (pre rest : List ℕ)
    → n < 2 ^ 64
    → round (first_scan pre (head 8 ++ (pack_u64 n ++ rest)))
      ≡ some (second_scan n (pre ++ (head 8 ++ pack_u64 n)) rest)
unfolding round
round-first n pre rest h =
    rw
      (
        read_sep_tag-container pre (pack_u64 n ++ rest) 8 (omega arith),
        slice-append pre (head 8 ++ (pack_u64 n ++ rest)) 5 13,
        slice-announced n rest,
        unpack_u64-pack n h,
        append_assoc pre (head 8 ++ pack_u64 n) rest,
        length-first pre n,
        round,
      )
      refl

round-second :
    (n : ℕ) (pre rest : List ℕ)
    → n < 2 ^ 64
    → round (second_scan n pre (4 ∷ (pack_u64 n ++ rest)))
      ≡ some (chunk_scan n (pre ++ (4 ∷ pack_u64 n)) rest 0 [])
unfolding round
round-second n pre rest h =
    let same : (n == n) ≡ true = ground arith in
    let size : length (pre ++ (4 ∷ pack_u64 n)) ≡ length pre + 9 =
      omega (arith, length-append pre (4 ∷ pack_u64 n)) in
    rw (read_sep_tag-size pre rest n h, same, append_assoc pre (4 ∷ pack_u64 n) rest, size, round)
      refl

-- A header of the size that the code skips, and the two first rounds.
scan-sep_file :
    (fuel : ℕ) (header c : List ℕ) (cs : List (List ℕ))
    → length cs < fuel
    → Fits (c ∷ cs)
    → length (joined (c ∷ cs)) < 2 ^ 64
    → (s : Scan) × (s.bindata ≡ joined (c ∷ cs))
      × (scan
            (suc (suc fuel))
            (length (sep_file header (c ∷ cs)))
            (record (start_scan (sep_file header (c ∷ cs))) { offset = length header })
          ≡ some s)
unfolding scan
scan-sep_file fuel header c cs f h b =
    let n = length (joined (c ∷ cs)) in
    let rest = sep_chunks (c ∷ cs) in
    let file = sep_file header (c ∷ cs) in
    let pre = header ++ (head 8 ++ pack_u64 n) in
    let pre' = pre ++ (4 ∷ pack_u64 n) in
    let (m, more) = length-chunks-pos c cs in
    let here : length pre' ≡ length header + 22 =
      omega (arith, length-first header n, length-append pre (4 ∷ pack_u64 n)) in
    let size : length file ≡ length header + 22 + length rest =
      omega (arith, length-append header (sep_size n ++ rest)) in
    let on : (length pre == length file) ≡ false = ground (arith, size, length-first header n) in
    let on' : (length pre' == length file) ≡ false = ground (arith, size, here) in
    let (s, all, ends) =
      scan-chunks fuel n 0 (length file) pre' [] c cs f h (omega arith)
        (omega (arith, size, here)) in
    (
      s,
      all,
      rw
          (
            round-first n header (4 ∷ (pack_u64 n ++ rest)) b,
            scan,
            on,
            round-second n pre rest b,
            on',
          )
          ends,
    )

-- A file in the format, and what the decoder checks of it.
abbrev pub sep_data : List ℕ → List (List ℕ) → List ℕ
sep_data header cs = bytearray_xor (sep_file header cs) 0x5a

-- For each header of the expected size with the data offset that the code supports, and at least
-- one and at most 19998 chunks whose sizes fit their fields, the Symantec decoder stores exactly
-- the bytes of the chunks.
pub sep_unquarantine_chunks :
    (name : List ℕ → String) (header c : List ℕ) (cs : List (List ℕ))
    → length header ≡ 0x12b8
    → unpack_u32 (slice (sep_data header (c ∷ cs)) 0 4) ≡ some 0x1290
    → length cs < 19998
    → Fits (c ∷ cs)
    → length (joined (c ∷ cs)) < 2 ^ 64
    → sep_unquarantine name (sep_data header (c ∷ cs))
      ≡ stored (joined (c ∷ cs)) (name (slice (sep_data header (c ∷ cs)) 4 388))
unfolding sep_unquarantine
sep_unquarantine_chunks name header c cs size magic few h b =
    let file = sep_file header (c ∷ cs) in
    let (s, all, ends) = scan-sep_file 19998 header c cs few h b in
    let ends' : scan 20000 (length file) (start_scan file) ≡ some s =
      ap (λ o. scan 20000 (length file) (record (start_scan file) { offset = o })) (sym size)
      ∙ ends in
    rw (magic, length-bytearray_xor file 0x5a, bytearray_xor_twice file 0x5a, ends', all) refl
