-- ===== src/Aplib/Depack/Reads.antt =====
-- What the readers of lib/cuckoo/common/aplib.py make of written bits and bytes.
use capev.Base.{
  ℕ, suc, ◌-◌, ◌*◌, ◌/◌, ◌%◌, ◌==◌, ◌<◌, ◌≡◌, refl, ap, sym, ◌∙◌, false, Option, some, List, [],
  ◌∷◌, ◌++◌, length, arith, inl, inr, Bool-cases, subst,
}
use capev.Aplib.Reader.{
  State, ok, Decoding, pure, ◌>>=◌, ap_getbit, read_byte, copy_byte, append, copy_back, copy, move,
}
use capev.Aplib.Depack.{Loop}
use capev.Aplib.Depack.Encode.{Feed, tag_of, put_bit, put_byte}

-- The bits come first in the tag.
abbrev pub IsTag : List ℕ → ℕ → Type 0
IsTag [] t = Unit
IsTag (b ∷ bs) t = (t / 128 % 2 ≡ b % 2) × IsTag bs (t * 2)

-- The state will read the feed, and has written `xs`.
abbrev pub Matches : Feed → List ℕ → State → Type 0
Matches f xs s =
    (s.bitcount ≡ length f.0)
    × (length f.0 < 8)
    × (s.source ≡ f.1)
    × (s.destination ≡ xs)
    × IsTag f.0 s.tag

tag_of_lem : (b : ℕ) (p : List ℕ) → length p ≡ 7 → IsTag (b ∷ p) (tag_of (b ∷ p))
tag_of_lem b [] e = absurd (omega arith)
tag_of_lem b (b1 ∷ []) e = absurd (omega arith)
tag_of_lem b (b1 ∷ b2 ∷ []) e = absurd (omega arith)
tag_of_lem b (b1 ∷ b2 ∷ b3 ∷ []) e = absurd (omega arith)
tag_of_lem b (b1 ∷ b2 ∷ b3 ∷ b4 ∷ []) e = absurd (omega arith)
tag_of_lem b (b1 ∷ b2 ∷ b3 ∷ b4 ∷ b5 ∷ []) e = absurd (omega arith)
tag_of_lem b (b1 ∷ b2 ∷ b3 ∷ b4 ∷ b5 ∷ b6 ∷ []) e = absurd (omega arith)
tag_of_lem b (b1 ∷ b2 ∷ b3 ∷ b4 ∷ b5 ∷ b6 ∷ b7 ∷ []) e = (
  omega arith,
  (
    omega arith,
    (omega arith, (omega arith, (omega arith, (omega arith, (omega arith, (omega arith, tt)))))),
  ),
)
tag_of_lem b (b1 ∷ b2 ∷ b3 ∷ b4 ∷ b5 ∷ b6 ∷ b7 ∷ b8 ∷ bs) e = absurd (omega arith)

-- Reading gives the value, reads from the feed `f` up to `g`, and writes what makes `xs` `ys`.
abbrev pub Reads : {A : Type 0} → Decoding A → Feed → List ℕ → A → Feed → List ℕ → Type 0
Reads m f xs a g ys =
    (s : State) → Matches f xs s → (s' : State) × (m s ≡ ok a s') × Matches g ys s'

getbit-load :
    (s : State) (t : ℕ) (cs : List ℕ)
    → s.bitcount ≡ 0
    → s.source ≡ t ∷ cs
    → ap_getbit s ≡ ok (t / 128 % 2) (record s { source = cs; tag = t * 2; bitcount = 7 })
unfolding ap_getbit
getbit-load s t cs e h = rw (e, h) refl

getbit-shift :
    (s : State) (n : ℕ)
    → s.bitcount ≡ suc n
    → ap_getbit s ≡ ok (s.tag / 128 % 2) (record s { tag = s.tag * 2; bitcount = n })
unfolding ap_getbit
getbit-shift s n e =
    let less : suc n - 1 ≡ n = omega arith in
    let some_left : (suc n == 0) ≡ false = ground arith in rw (e, less, some_left) refl

-- `put_bit` by the number of bits that are left.
put_bit-full :
    (b : ℕ) (p cs : List ℕ) → length p ≡ 7 → put_bit b (p, cs) ≡ ([], tag_of (b ∷ p) ∷ cs)
unfolding put_bit
put_bit-full b p cs e = rw e refl

put_bit-part : (b : ℕ) (p cs : List ℕ) → length p == 7 ≡ false → put_bit b (p, cs) ≡ (b ∷ p, cs)
unfolding put_bit
put_bit-part b p cs e = rw e refl

pub getbit-Reads : (b : ℕ) (f : Feed) (xs : List ℕ) → Reads ap_getbit (put_bit b f) xs (b % 2) f xs
getbit-Reads b (p, cs) xs s m = elim (Bool-cases (length p == 7)) [
  | inl q ↦
      let n : length p ≡ 7 = ground arith in
      let (c, l, src, dest, t) = subst (λ f. Matches f xs s) (put_bit-full b p cs n) m in
      let tag = tag_of_lem b p n in
      let s' : State = record s { source = cs; tag = tag_of (b ∷ p) * 2; bitcount = 7 } in
      (
        s',
        getbit-load s _ cs c src ∙ ap (λ v. ok v s') tag.0,
        (sym n, omega arith, refl, dest, tag.1),
      )
  | inr q ↦
      let (c, l, src, dest, t) = subst (λ f. Matches f xs s) (put_bit-part b p cs q) m in
      let s' : State = record s { tag = s.tag * 2; bitcount = length p } in
      (s', getbit-shift s _ c ∙ ap (λ v. ok v s') t.0, (refl, omega arith, src, dest, t.1))
]

pub byte-Reads : (c : ℕ) (f : Feed) (xs : List ℕ) → Reads read_byte (put_byte c f) xs c f xs
unfolding read_byte
byte-Reads c f xs s (n, l, src, dest, t) =
    (record s { source = f.1 }, rw src refl, (n, l, refl, dest, t))

pub copy_byte-Reads :
    (c : ℕ) (f : Feed) (xs : List ℕ) → Reads copy_byte (put_byte c f) xs tt f (xs ++ (c ∷ []))
unfolding copy_byte
copy_byte-Reads c f xs s (n, l, src, dest, t) =
    (move (c ∷ f.1) s, rw src refl, (n, l, refl, ap (λ d. d ++ (c ∷ [])) dest, t))

pub append-Reads : (v : ℕ) (f : Feed) (xs : List ℕ) → Reads (append v) f xs tt f (xs ++ (v ∷ []))
unfolding append
append-Reads v f xs s (n, l, src, dest, t) = (_, refl, (n, l, src, ap (λ d. d ++ (v ∷ [])) dest, t))

pub copy-Reads :
    (offs : Option ℕ) (n : ℕ) (f : Feed) (xs ys : List ℕ)
    → copy_back offs n xs ≡ some ys
    → Reads (copy offs n) f xs tt f ys
unfolding copy
copy-Reads offs n f xs ys e s (c, l, src, dest, t) =
    (record s { destination = ys }, rw (dest, e) refl, (c, l, src, refl, t))

pub pure-Reads : {A : Type 0} (a : A) (f : Feed) (xs : List ℕ) → Reads (pure a) f xs a f xs
pure-Reads a f xs s m = (s, refl, m)

module _ {A B : Type 0} where
  pub then-Reads :
      {m : Decoding A} {xs zs : List ℕ} {a : A} {b : B} (k : A → Decoding B) (f h g : Feed)
      (ys : List ℕ)
      → Reads m f xs a g ys
      → Reads (k a) g ys b h zs
      → Reads (m >>= k) f xs b h zs
  then-Reads k f h g ys p q s c =
      let (s1, e1, c1) = p s c in let (s2, e2, c2) = q s1 c1 in (s2, rw e1 e2, c2)

pub finally-Reads :
    {m : Decoding Unit} {xs ys : List ℕ} (v : Loop) (f g : Feed)
    → Reads m f xs tt g ys
    → Reads (m >>= (λ x. pure v)) f xs v g ys
finally-Reads v f g p s c = let (s1, e1, c1) = p s c in (s1, rw e1 refl, c1)
