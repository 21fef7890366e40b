-- ===== src/Aplib/Depack/Gamma.antt =====
-- `ap_getgamma` of lib/cuckoo/common/aplib.py on written numbers.
use capev.Base.{
  ℕ, zero, suc, ◌+◌, ◌-◌, ◌*◌, ◌/◌, ◌%◌, ◌==◌, ◌≤◌, ◌<◌, ◌≡◌, refl, ap, ◌∙◌, true, false, List,
  length, leb, arith, inl, inr, Bool-cases, subst,
}
use capev.Aplib.Reader.{State, ok, Decoding, bits, gamma_loop, ap_getgamma}
use capev.Aplib.Depack.Encode.{Feed, put_bit, put_gamma, gamma}
use capev.Aplib.Depack.Reads.{Matches, Reads, getbit-Reads}

-- The rounds that the loop takes for a number.
abbrev digits : ℕ → ℕ → ℕ
digits zero n = 0
digits (suc k) n = elim (leb (n / 2) 1) [ true ↦ 1 | false ↦ suc (digits k (n / 2)) ]

-- What the loop does after the digits of `n`.
abbrev go_on : ℕ → ℕ → ℕ → Decoding ℕ
go_on last m n s = elim (last == 0) [ true ↦ ok n s | false ↦ gamma_loop m n s ]

-- One round, for the last digit of `n`.
gamma_step :
    (n last m : ℕ) (f : Feed) (xs : List ℕ) (s : State)
    → last < 2
    → Matches (put_bit n (put_bit last f)) xs s
    → (s' : State) × (gamma_loop (suc m) (n / 2) s ≡ go_on last m n s') × Matches f xs s'
unfolding gamma_loop
gamma_step n last m f xs s h c =
    let (s1, e1, c1) = getbit-Reads n (put_bit last f) xs s c in
    let (s2, e2, c2) = getbit-Reads last f xs s1 c1 in
    let small : last % 2 ≡ last = omega arith in
    let whole : 2 * (n / 2) + n % 2 ≡ n = omega arith in
    (s2, rw (e1, e2, small) refl ∙ ap (λ v. go_on last m v s2) whole, c2)

put_gamma-one :
    (k n last : ℕ) (f : Feed)
    → leb (n / 2) 1 ≡ true
    → put_gamma (suc k) n last f ≡ put_bit n (put_bit last f)
unfolding put_gamma
put_gamma-one k n last f q = rw (q, put_gamma) refl

put_gamma-more :
    (k n last : ℕ) (f : Feed)
    → leb (n / 2) 1 ≡ false
    → put_gamma (suc k) n last f ≡ put_gamma k (n / 2) 1 (put_bit n (put_bit last f))
unfolding put_gamma
put_gamma-more k n last f q = rw (q, put_gamma) refl

-- From the first digit, with rounds for the digits and `m` more.
gamma_loop-put :
    (k n last m : ℕ) (f : Feed) (xs : List ℕ) (s : State)
    → 2 ≤ n
    → n ≤ k
    → last < 2
    → Matches (put_gamma k n last f) xs s
    → (s' : State) × (gamma_loop (digits k n + m) 1 s ≡ go_on last m n s') × Matches f xs s'
gamma_loop-put zero n last m f xs s h h' hl c = absurd (omega arith)
gamma_loop-put (suc k) n last m f xs s h h' hl c = elim (Bool-cases (leb (n / 2) 1)) [
  | inl q ↦
      let c' = subst (λ g. Matches g xs s) (put_gamma-one k n last f q) c in
      let (s1, e1, c1) = gamma_step n last m f xs s hl c' in
      let rounds : digits (suc k) n + m ≡ suc m = ground arith in
      let half : 1 ≡ n / 2 = ground arith in
      (s1, ap (λ i. gamma_loop i 1 s) rounds ∙ ap (λ r. gamma_loop (suc m) r s) half ∙ e1, c1)
  | inr q ↦
      let g = put_bit n (put_bit last f) in
      let c' = subst (λ g. Matches g xs s) (put_gamma-more k n last f q) c in
      let (s1, e1, c1) =
        gamma_loop-put k (n / 2) 1 (suc m) g xs s (ground arith) (omega arith) (omega arith) c' in
      let (s2, e2, c2) = gamma_step n last m f xs s1 hl c1 in
      let rounds : digits (suc k) n + m ≡ digits k (n / 2) + suc m = ground arith in
      (s2, ap (λ i. gamma_loop i 1 s) rounds ∙ e1 ∙ e2, c2)
]

-- The bits of a feed, and that a number has as many of them as it takes rounds.
abbrev feed_bits : Feed → ℕ
feed_bits f = 8 * length f.1 + length f.0

put_bit-bits : (b : ℕ) (f : Feed) → feed_bits (put_bit b f) ≡ suc (feed_bits f)
unfolding put_bit
put_bit-bits b (p, cs) = ground arith

digits-bits :
    (k n last : ℕ) (f : Feed) → digits k n + feed_bits f ≤ feed_bits (put_gamma k n last f)
unfolding put_gamma
digits-bits zero n last f = omega arith
digits-bits (suc k) n last f =
    let g = put_bit n (put_bit last f) in
    ground (
      arith,
      put_bit-bits n (put_bit last f),
      put_bit-bits last f,
      digits-bits k (n / 2) 1 g,
      put_gamma-one k n last f,
      put_gamma-more k n last f,
    )

Matches-bits : (f : Feed) (xs : List ℕ) (s : State) → Matches f xs s → bits s ≡ feed_bits f
Matches-bits f xs s (n, l, src, dest, t) = rw (n, src) refl

pub gamma-Reads : (n : ℕ) (f : Feed) (xs : List ℕ) → 2 ≤ n → Reads ap_getgamma (gamma n f) xs n f xs
unfolding ap_getgamma
gamma-Reads n f xs h s c =
    let left = bits s + 1 - digits n n in
    let (s1, e1, c1) = gamma_loop-put n n 0 left f xs s h (omega arith) (omega arith) c in
    let rounds : bits s + 1 ≡ digits n n + left =
      omega (arith, Matches-bits (gamma n f) xs s c, digits-bits n n 0 f) in
    (s1, ap (λ i. gamma_loop i 1 s) rounds ∙ e1, c1)
