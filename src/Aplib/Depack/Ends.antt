-- ===== src/Aplib/Depack/Ends.antt =====
-- The loops of lib/cuckoo/common/aplib.py: that they end, and where the bytes of the result come from.
use capev.Base.{
  ℕ, zero, suc, ◌+◌, ◌-◌, ◌*◌, ◌/◌, ◌%◌, ◌==◌, ◌≤◌, ◌<◌, ◌≡◌, refl, Bool, true, false, ◌&&◌, Option,
  none, some, List, [], ◌∷◌, ◌++◌, length, leb, if◌then◌else◌, All, get_elem?, arith, inl, inr,
  Bool-cases, subst,
}
use capev.Aplib.Reader.{
  State, Decoded, ok, raised, out_of_fuel, Decoding, continue, ◌>>=◌, load, ap_getbit, bits,
  gamma_loop, ap_getgamma, take_byte, read_byte, copy_byte, append, item, copy_back, with_copied,
  copy, move,
}
use capev.Aplib.Depack.{
  Loop, nibble, tiny_block, short_block, repeat_block, far_block, block, literal, round, main_loop,
  start, ap_depack, Unpacked, unpacked, error, stuck, result, decompress,
}

module _ (P : ℕ → Type 0) (p0 : P 0) where
  abbrev pub Safe : State → Type 0
  Safe s = All P s.source × All P s.destination

  -- No more rounds are asked for; a result has fewer than `n` bits left, and its bytes are safe.
  abbrev pub Uses : {A : Type 0} → ℕ → Decoded A → Type 0
  Uses n (ok a s) = (bits s < n) × Safe s
  Uses n raised = Unit
  Uses n out_of_fuel = ⊥

  module _ {A : Type 0} where
    Uses-weaken : (n k : ℕ) (d : Decoded A) → n ≤ k → Uses n d → Uses k d
    Uses-weaken n k (ok a s) e h = (omega (arith, h.0), h.1)
    Uses-weaken n k raised e h = tt
    Uses-weaken n k out_of_fuel e h = h

    either-Uses :
        (n : ℕ) (b : Bool) (d d' : Decoded A)
        → Uses n d
        → Uses n d'
        → Uses n (elim b [ true ↦ d | false ↦ d' ])
    either-Uses n true d d' h k = h
    either-Uses n false d d' h k = k

  module _ {A B : Type 0} where
    Uses-then :
        (n k : ℕ) (d : Decoded A) (f : A → Decoding B)
        → Uses n d
        → ((a : A) (s : State) → bits s < n → Safe s → Uses k (f a s))
        → Uses k (continue d f)
    Uses-then n k (ok a s) f h g = g a s h.0 h.1
    Uses-then n k raised f h g = tt
    Uses-then n k out_of_fuel f h g = h

  All-append : (xs ys : List ℕ) → All P xs → All P ys → All P (xs ++ ys)
  All-append [] ys h k = k
  All-append (x ∷ xs) ys h k = (h.0, All-append xs ys h.1 k)

  All-get : (xs : List ℕ) (i v : ℕ) → All P xs → get_elem? xs i ≡ some v → P v
  All-get [] i v h e = absurd (ground arith)
  All-get (x ∷ xs) zero v h e = subst P (ground arith) h.0
  All-get (x ∷ xs) (suc i) v h e = All-get xs i v h.1 e

  item-safe : (offs : Option ℕ) (xs : List ℕ) (v : ℕ) → All P xs → item offs xs ≡ some v → P v
  unfolding item
  item-safe none xs v h e = All-get xs 1 v h e
  item-safe (some zero) xs v h e = All-get xs 0 v h e
  item-safe (some (suc n)) xs v h e = elim (Bool-cases (leb (suc n) (length xs))) [
    | inl q ↦ All-get xs (length xs - suc n) v h (ground arith)
    | inr q ↦ absurd (ground arith)
  ]

  abbrev Copied : Option (List ℕ) → Type 0
  Copied none = Unit
  Copied (some xs) = All P xs

  copy_back-Copied :
      (offs : Option ℕ) (n : ℕ) (xs : List ℕ) → All P xs → Copied (copy_back offs n xs)
  unfolding copy_back
  copy_back-Copied offs zero xs h = h
  copy_back-Copied offs (suc n) xs h =
      go (λ v. copy_back-Copied offs n (xs ++ (v ∷ []))) (item offs xs) refl
    where
      go :
          ((v : ℕ) → All P (xs ++ (v ∷ [])) → Copied (copy_back offs n (xs ++ (v ∷ []))))
          → (o : Option ℕ) → item offs xs ≡ o
          → Copied (elim o [ none ↦ none | some v ↦ copy_back offs n (xs ++ (v ∷ [])) ])
      go more none e = tt
      go more (some v) e = more v (All-append xs (v ∷ []) h (item-safe offs xs v h e, tt))

  copy-Uses : (offs : Option ℕ) (n : ℕ) (s : State) → Safe s → Uses (bits s + 1) (copy offs n s)
  unfolding copy
  copy-Uses offs n s h =
      go (copy_back offs n s.destination) (copy_back-Copied offs n s.destination h.1)
    where
      go : (o : Option (List ℕ)) → Copied o → Uses (bits s + 1) (with_copied o s)
      go none c = tt
      go (some xs) c = (omega arith, (h.0, c))

  ap_getbit-Uses : (s : State) → Safe s → Uses (bits s) (ap_getbit s)
  unfolding ap_getbit
  ap_getbit-Uses s h = elim (Bool-cases (s.bitcount == 0)) [
    | inl q ↦ rw q (go s.source h.0 (omega arith))
    | inr q ↦ rw q (ground arith, h)
  ]
    where
      go : (xs : List ℕ) → All P xs → length xs ≤ length s.source → Uses (bits s) (load xs s)
      go [] a e = tt
      go (c ∷ cs) a e = (omega arith, (a.1, h.1))

  read_byte-Uses : (s : State) → Safe s → Uses (bits s + 1) (read_byte s)
  unfolding read_byte
  read_byte-Uses s h = go s.source h.0 (omega arith)
    where
      go :
          (xs : List ℕ)
          → All P xs
          → length xs ≤ length s.source
          → Uses (bits s + 1) (take_byte xs s)
      go [] a e = tt
      go (c ∷ cs) a e = (omega arith, (a.1, h.1))

  append-Uses : (v : ℕ) (s : State) → P v → Safe s → Uses (bits s + 1) (append v s)
  unfolding append
  append-Uses v s p h = (omega arith, (h.0, All-append s.destination (v ∷ []) h.1 (p, tt)))

  move-Safe :
      (xs : List ℕ) (s : State)
      → All P xs
      → length xs ≤ length s.source
      → Safe s
      → (bits (move xs s) < bits s + 1) × Safe (move xs s)
  move-Safe [] s a e h = (omega arith, h)
  move-Safe (c ∷ cs) s a e h = (omega arith, (a.1, All-append s.destination (c ∷ []) h.1 (a.0, tt)))

  copy_byte-Uses : (s : State) → Safe s → Uses (bits s + 1) (copy_byte s)
  unfolding copy_byte
  copy_byte-Uses s h = move-Safe s.source s h.0 (omega arith) h

  gamma_loop-Uses :
      (n r : ℕ) (s : State) → bits s < n → Safe s → Uses (bits s + 1) (gamma_loop n r s)
  unfolding gamma_loop
  gamma_loop-Uses zero r s m h = absurd (omega arith)
  gamma_loop-Uses (suc n) r s m h =
      Uses-then (bits s) (bits s + 1) (ap_getbit s) _ (ap_getbit-Uses s h) (λ b s1 m1 h1.
        Uses-then (bits s1) (bits s + 1) (ap_getbit s1) _ (ap_getbit-Uses s1 h1) (λ more s2 m2 h2.
          either-Uses (bits s + 1) (more == 0) _ _ (omega arith, h2)
            (Uses-weaken (bits s2 + 1) (bits s + 1) _ (omega arith)
              (gamma_loop-Uses n (2 * r + b) s2 (omega arith) h2))))

  ap_getgamma-Uses : (s : State) → Safe s → Uses (bits s + 1) (ap_getgamma s)
  unfolding ap_getgamma
  ap_getgamma-Uses s h = gamma_loop-Uses (bits s + 1) 1 s (omega arith) h

  -- A reading that is no longer than the bits of its state, for all states.
  abbrev Sound : {A : Type 0} → Decoding A → Type 0
  Sound m = (s : State) → Safe s → Uses (bits s + 1) (m s)

  stay : (s : State) → Safe s → (bits s < bits s + 1) × Safe s
  stay s h = (omega arith, h)

  getbit-Sound : Sound ap_getbit
  getbit-Sound s h =
      Uses-weaken (bits s) (bits s + 1) (ap_getbit s) (omega arith) (ap_getbit-Uses s h)

  module _ {A B : Type 0} where
    then-Sound :
        (m : Decoding A) (f : A → Decoding B) → Sound m → ((a : A) → Sound (f a)) → Sound (m >>= f)
    then-Sound m f h k s safe =
        Uses-then (bits s + 1) (bits s + 1) (m s) f (h s safe)
          (λ a s1 m1 h1. Uses-weaken (bits s1 + 1) (bits s + 1) (f a s1) (omega arith) (k a s1 h1))

  if-Sound :
      {A : Type 0} (b : Bool) (m m' : Decoding A) → Sound m → Sound m' → Sound (if b then m else m')
  if-Sound true m m' h k = h
  if-Sound false m m' h k = k

  nibble-Sound : Sound nibble
  unfolding nibble
  nibble-Sound = then-Sound _ _ getbit-Sound (λ b3.
      then-Sound _ _ getbit-Sound
        (λ b2. then-Sound _ _ getbit-Sound (λ b1. then-Sound _ _ getbit-Sound (λ b0. stay))))

  tiny_block-Sound : (l : Loop) → Sound (tiny_block l)
  unfolding tiny_block
  tiny_block-Sound l = then-Sound _ _ nibble-Sound (λ offs.
      then-Sound _ _
        (if-Sound (offs == 0) _ _ (λ s h. append-Uses 0 s p0 h) (copy-Uses (some offs) 1))
        (λ x. stay))

  short_block-Sound : (l : Loop) → Sound (short_block l)
  unfolding short_block
  short_block-Sound l = then-Sound _ _ read_byte-Uses (λ offs.
      then-Sound _ _
        (if-Sound (offs / 2 == 0) _ _ stay (copy-Uses (some (offs / 2)) (2 + offs % 2)))
        (λ x. stay))

  repeat_block-Sound : (l : Loop) → Sound (repeat_block l)
  unfolding repeat_block
  repeat_block-Sound l =
      then-Sound _ _ ap_getgamma-Uses (λ n. then-Sound _ _ (copy-Uses l.r0 n) (λ x. stay))

  far_block-Sound : (l : Loop) (high : ℕ) → Sound (far_block l high)
  unfolding far_block
  far_block-Sound l high =
      then-Sound _ _ read_byte-Uses
        (λ low. then-Sound _ _ ap_getgamma-Uses (λ n. then-Sound _ _ (copy-Uses _ _) (λ x. stay)))

  block-Sound : (l : Loop) → Sound (block l)
  unfolding block
  block-Sound l = then-Sound _ _ ap_getgamma-Uses (λ high.
      if-Sound (l.lwm == 0 && high == 2) _ _ (repeat_block-Sound l) (far_block-Sound l high))

  literal-Sound : (l : Loop) → Sound (literal l)
  unfolding literal
  literal-Sound l = then-Sound _ _ copy_byte-Uses (λ x. stay)

  -- A round takes a bit.
  pub round-Uses : (l : Loop) (s : State) → Safe s → Uses (bits s) (round l s)
  unfolding round
  round-Uses l s h =
      Uses-then (bits s) (bits s) (ap_getbit s) _ (ap_getbit-Uses s h) (λ b1 s1 m1 h1.
        Uses-weaken (bits s1 + 1) (bits s) _ (omega arith) (
          if-Sound (b1 == 0) _ _ (literal-Sound l)
            (then-Sound _ _ getbit-Sound (λ b2. if-Sound (b2 == 0) _ _ (block-Sound l) (
              then-Sound _ _ getbit-Sound
                (λ b3. if-Sound (b3 == 0) _ _ (short_block-Sound l) (tiny_block-Sound l)))))
            s1 h1))

  main_loop-Uses :
      (n : ℕ) (l : Loop) (s : State) → bits s < n → Safe s → Uses (bits s + 1) (main_loop n l s)
  unfolding main_loop
  main_loop-Uses zero l s m h = absurd (omega arith)
  main_loop-Uses (suc n) l s m h = either-Uses (bits s + 1) l.done _ _ (stay s h) (
      Uses-then (bits s) (bits s + 1) (round l s) _ (round-Uses l s h) (λ l1 s1 m1 h1.
        Uses-weaken (bits s1 + 1) (bits s + 1) _ (omega arith)
          (main_loop-Uses n l1 s1 (omega arith) h1)))

  abbrev pub Sourced : Unpacked → Type 0
  Sourced (unpacked xs) = All P xs
  Sourced error = Unit
  Sourced stuck = ⊥

  -- For all data the loops of decompress end within their rounds, and each byte of a result has
  -- every property that zero and all bytes of the data have.
  pub decompress-Sourced : (source : List ℕ) → All P source → Sourced (decompress source)
  unfolding decompress ap_depack
  decompress-Sourced source h =
      let (m, safe) = move-Safe source (start source) h (omega arith) (h, tt) in
      go _ _ (main_loop-Uses _ _ _ (omega arith) safe)
    where
      go : (d : Decoded Unit) → (n : ℕ) → Uses n d → Sourced (result d)
      go (ok a s) n u = u.1.1
      go raised n u = tt
      go out_of_fuel n u = u
