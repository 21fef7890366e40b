-- ===== src/Aplib/Depack/Roundtrip.antt =====
-- Written blocks, decompressed by lib/cuckoo/common/aplib.py.
use capev.Base.{
  ℕ, zero, suc, ◌+◌, ◌-◌, ◌*◌, ◌/◌, ◌%◌, ◌==◌, ◌≤◌, ◌<◌, ◌≡◌, refl, ap, sym, ◌∙◌, true, false, ◌&&◌,
  Option, none, some, List, [], ◌∷◌, ◌++◌, All, if◌then◌else◌, arith, inl, inr, Bool-cases,
  Option-cases, subst,
}
use capev.Aplib.Reader.{State, ok, bits, append, copy, move}
use capev.Aplib.Depack.{
  Loop, nibble, tiny_block, short_block, block_length, repeat_block, far_block, block, literal,
  round, main_loop, start, ap_depack, unpacked, result, decompress,
}
use capev.Aplib.Depack.Ends.{Uses, round-Uses}
use capev.Aplib.Depack.Encode.{
  Feed, put_bit, put_byte, gamma, Block, byte, near, pair, far, again, IsBlock, lwm_after,
  AreBlocks, put_block, encode, play, distance, full_length, play_all,
}
use capev.Aplib.Depack.Reads.{
  Matches, Reads, getbit-Reads, byte-Reads, copy_byte-Reads, append-Reads, copy-Reads, pure-Reads,
  then-Reads, finally-Reads,
}
use capev.Aplib.Depack.Gamma.{gamma-Reads}

nibble-Reads :
    (offs : ℕ) (f : Feed) (xs : List ℕ)
    → offs < 16
    → Reads nibble
        (put_bit (offs / 8) (put_bit (offs / 4) (put_bit (offs / 2) (put_bit offs f))))
        xs
        offs
        f
        xs
unfolding nibble
nibble-Reads offs f xs h =
    let whole : 2 * (2 * (2 * (2 * 0 + offs / 8 % 2) + offs / 4 % 2) + offs / 2 % 2) + offs % 2
        ≡ offs =
      omega arith in
    then-Reads _ _ _ _ xs (getbit-Reads (offs / 8) _ xs) (
      then-Reads _ _ _ _ xs (getbit-Reads (offs / 4) _ xs) (
        then-Reads _ _ _ _ xs (getbit-Reads (offs / 2) _ xs)
          (then-Reads _ _ _ f xs (getbit-Reads offs f xs) (λ s m. (s, ap (λ v. ok v s) whole, m)))))

module _ (r0 : Option ℕ) (lwm : ℕ) where
  abbrev before_round : Loop
  before_round = record { r0 = r0; lwm = lwm; done = false }

  -- What a block leaves.
  abbrev after_block : Block → Loop
  after_block b = record { r0 = distance b r0; lwm = lwm_after b; done = false }

  byte-round :
      (c : ℕ) (f : Feed) (xs : List ℕ)
      → Reads
          (round before_round)
          (put_block lwm (byte c) f)
          xs
          (after_block (byte c))
          f
          (xs ++ (c ∷ []))
  unfolding round literal
  byte-round c f xs =
      then-Reads _ _ _ (put_byte c f) xs (getbit-Reads 0 (put_byte c f) xs)
        (finally-Reads _ _ f (copy_byte-Reads c f xs))

  -- After the bits that announce a block.
  pair-bits :
      (f g : Feed) (xs ys : List ℕ) (l : Loop)
      → Reads (short_block before_round) f xs l g ys
      → Reads (round before_round) (put_bit 1 (put_bit 1 (put_bit 0 f))) xs l g ys
  unfolding round
  pair-bits f g xs ys l h =
      then-Reads _ _ _ _ xs (getbit-Reads 1 _ xs) (
        then-Reads _ _ _ _ xs (getbit-Reads 1 _ xs) (then-Reads _ _ _ f xs (getbit-Reads 0 f xs) h))

  near-bits :
      (f g : Feed) (xs ys : List ℕ) (l : Loop)
      → Reads (tiny_block before_round) f xs l g ys
      → Reads (round before_round) (put_bit 1 (put_bit 1 (put_bit 1 f))) xs l g ys
  unfolding round
  near-bits f g xs ys l h =
      then-Reads _ _ _ _ xs (getbit-Reads 1 _ xs) (
        then-Reads _ _ _ _ xs (getbit-Reads 1 _ xs) (then-Reads _ _ _ f xs (getbit-Reads 1 f xs) h))

  block-bits :
      (f g : Feed) (xs ys : List ℕ) (l : Loop)
      → Reads (block before_round) f xs l g ys
      → Reads (round before_round) (put_bit 1 (put_bit 0 f)) xs l g ys
  unfolding round
  block-bits f g xs ys l h =
      then-Reads _ _ _ _ xs (getbit-Reads 1 _ xs) (then-Reads _ _ _ f xs (getbit-Reads 0 f xs) h)

  end-round :
      (f : Feed) (xs : List ℕ)
      → Reads
          (round before_round)
          (encode lwm [] f)
          xs
          (record { r0 = some 0; lwm = 1; done = true })
          f
          xs
  unfolding encode short_block
  end-round f xs =
      pair-bits (put_byte 0 f) f xs xs _
        (then-Reads _ _ _ f xs (byte-Reads 0 f xs) (finally-Reads _ f f (pure-Reads tt f xs)))

  pair-round :
      (offs n : ℕ) (f : Feed) (xs ys : List ℕ)
      → 1 ≤ offs
      → n < 2
      → play (pair offs n) r0 xs ≡ some ys
      → Reads
          (round before_round)
          (put_block lwm (pair offs n) f)
          xs
          (after_block (pair offs n))
          f
          ys
  unfolding short_block play
  pair-round offs n f xs ys h k e = pair-bits (put_byte (2 * offs + n) f) f xs ys _ (
      then-Reads _ _ _ f xs (byte-Reads (2 * offs + n) f xs) (λ s m.
        let half : (2 * offs + n) / 2 ≡ offs = omega arith in
        let odd : (2 * offs + n) % 2 ≡ n = omega arith in
        let some_offs : (offs == 0) ≡ false = ground arith in
        rw (half, odd, some_offs)
          (finally-Reads (after_block (pair offs n)) f f (copy-Reads (some offs) (2 + n) f xs ys e)
            s m)))

  near-tail :
      (offs : ℕ) (f : Feed) (xs ys : List ℕ)
      → play (near offs) r0 xs ≡ some ys
      → Reads (if offs == 0 then append 0 else copy (some offs) 1) f xs tt f ys
  unfolding play
  near-tail offs f xs ys e = elim (Bool-cases (offs == 0)) [
    | inl q ↦
        let same : xs ++ (0 ∷ []) ≡ ys = ground arith in
        λ s m. rw q (subst (λ zs. Reads (append 0) f xs tt f zs) same (append-Reads 0 f xs) s m)
    | inr q ↦ λ s m. rw q (copy-Reads (some offs) 1 f xs ys (ground arith) s m)
  ]

  near-round :
      (offs : ℕ) (f : Feed) (xs ys : List ℕ)
      → offs < 16
      → play (near offs) r0 xs ≡ some ys
      → Reads (round before_round) (put_block lwm (near offs) f) xs (after_block (near offs)) f ys
  unfolding tiny_block
  near-round offs f xs ys h e = near-bits _ f xs ys _ (
      then-Reads _ _ _ f xs (nibble-Reads offs f xs h)
        (finally-Reads (after_block (near offs)) f f (near-tail offs f xs ys e)))

  again-round :
      (n : ℕ) (f : Feed) (xs ys : List ℕ)
      → lwm ≡ 0
      → 2 ≤ n
      → play (again n) r0 xs ≡ some ys
      → Reads (round before_round) (put_block lwm (again n) f) xs (after_block (again n)) f ys
  unfolding block repeat_block play
  again-round n f xs ys z h e = block-bits _ f xs ys _ (
      then-Reads _ _ _ _ xs (gamma-Reads 2 _ xs (omega arith)) (λ s m. rw z (
        then-Reads _ _ _ f xs (gamma-Reads n f xs h)
          (finally-Reads _ f f (copy-Reads r0 n f xs ys e)) s m)))

  -- What the format adds to a distance.
  abbrev added : ℕ
  added = if lwm == 0 then 3 else 2

  block_length_lem : (offs n : ℕ) → block_length offs n ≡ full_length offs n
  block_length_lem offs n = ground arith

  far_block-Reads :
      (offs n : ℕ) (f : Feed) (xs ys : List ℕ)
      → 2 ≤ n
      → play (far offs n) r0 xs ≡ some ys
      → Reads
          (far_block before_round (offs / 256 + added))
          (put_byte (offs % 256) (gamma n f))
          xs
          (after_block (far offs n))
          f
          ys
  unfolding far_block play
  far_block-Reads offs n f xs ys h e =
      let whole : 256 * (offs / 256 + added - added) + offs % 256 ≡ offs = omega arith in
      then-Reads _ _ _ _ xs (byte-Reads (offs % 256) (gamma n f) xs) (
        then-Reads _ _ _ f xs (gamma-Reads n f xs h) (λ s m.
          rw (whole, block_length_lem offs n)
            (finally-Reads (after_block (far offs n)) f f (copy-Reads _ _ f xs ys e) s m)))

  far-round :
      (offs n : ℕ) (f : Feed) (xs ys : List ℕ)
      → 2 ≤ n
      → play (far offs n) r0 xs ≡ some ys
      → Reads (round before_round) (put_block lwm (far offs n) f) xs (after_block (far offs n)) f ys
  unfolding block
  far-round offs n f xs ys h e =
      let high = offs / 256 + added in
      let two : 2 ≤ high = ground arith in
      let other : (lwm == 0 && high == 2) ≡ false = ground arith in
      block-bits _ f xs ys _ (
        then-Reads _ _ _ _ xs (gamma-Reads high _ xs two)
          (λ s m. rw other (far_block-Reads offs n f xs ys h e s m)))

  block-round :
      (b : Block) (f : Feed) (xs ys : List ℕ)
      → IsBlock lwm b
      → play b r0 xs ≡ some ys
      → Reads (round before_round) (put_block lwm b f) xs (after_block b) f ys
  unfolding play
  block-round (byte c) f xs ys h e =
      let same : xs ++ (c ∷ []) ≡ ys = ground arith in
      subst
        (λ zs. Reads (round before_round) (put_block lwm (byte c) f) xs (after_block (byte c)) f zs)
        same (byte-round c f xs)
  block-round (near offs) f xs ys h e = near-round offs f xs ys h e
  block-round (pair offs n) f xs ys h e = pair-round offs n f xs ys h.0 h.1 e
  block-round (far offs n) f xs ys h e = far-round offs n f xs ys h e
  block-round (again n) f xs ys h e = again-round n f xs ys h.0 h.1 e

main_loop-done : (n : ℕ) (l : Loop) (s : State) → l.done ≡ true → main_loop n l s ≡ ok tt s
unfolding main_loop
main_loop-done zero l s e = rw e refl
main_loop-done (suc n) l s e = rw e refl

all_unit : (xs : List ℕ) → All {0, 0} (λ x. Unit) xs
all_unit [] = tt
all_unit (x ∷ xs) = (tt, all_unit xs)

-- A round leaves fewer bits.
round-bits : (l l' : Loop) (s s' : State) → round l s ≡ ok l' s' → bits s' < bits s
round-bits l l' s s' e =
    (subst (Uses (λ x. Unit) tt (bits s)) e
      (round-Uses (λ x. Unit) tt l s (all_unit s.source, all_unit s.destination))).0

main_loop-play :
    (bs : List Block) (n : ℕ) (r0 : Option ℕ) (lwm : ℕ) (f : Feed) (xs ys : List ℕ) (s : State)
    → bits s < n
    → AreBlocks lwm bs
    → play_all bs r0 xs ≡ some ys
    → Matches (encode lwm bs f) xs s
    → result (main_loop n (before_round r0 lwm) s) ≡ unpacked ys
unfolding main_loop play_all encode
main_loop-play bs zero r0 lwm f xs ys s m h e c = absurd (omega arith)
main_loop-play [] (suc n) r0 lwm f xs ys s m h e c =
    let (s1, e1, c1) = end-round r0 lwm f xs s c in
    let (n1, l1, src1, dest1, t1) = c1 in
    let same : xs ≡ ys = ground arith in
    rw (e1, main_loop-done n (record { r0 = some 0; lwm = 1; done = true }) s1 refl)
      (ap unpacked (dest1 ∙ same))
main_loop-play (b ∷ bs) (suc n) r0 lwm f xs ys s m h e c = elim (Option-cases (play b r0 xs)) [
  | inl q ↦ absurd (ground arith)
  | inr (zs, q) ↦
      let (s1, e1, c1) = block-round r0 lwm b (encode (lwm_after b) bs f) xs zs h.0 q s c in
      let fewer = round-bits _ _ s s1 e1 in
      rw e1 (
        main_loop-play bs n (distance b r0) (lwm_after b) f zs ys s1 (omega (arith, fewer)) h.1
          (ground arith) c1)
]

-- Blocks that the format can hold, written as bits and bytes before any rest that makes the first
-- tag full, are decompressed to what they play, from a first byte and with each distance reaching
-- no farther back than there are bytes.
pub decompress-encode :
    (c : ℕ) (bs : List Block) (f : Feed) (source ys : List ℕ)
    → AreBlocks 0 bs
    → encode 0 bs f ≡ ([], source)
    → play_all bs none (c ∷ []) ≡ some ys
    → decompress (c ∷ source) ≡ unpacked ys
unfolding decompress ap_depack
decompress-encode c bs f source ys h e p =
    main_loop-play bs _ none 0 f (c ∷ []) ys _ (omega arith) h p (
      subst (λ g. Matches g (c ∷ []) (move (c ∷ source) (start (c ∷ source)))) (sym e)
        (refl, omega arith, refl, refl, tt))
