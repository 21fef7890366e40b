-- ===== src/Quarantine/Trend/Body.antt =====
-- What `trend_unquarantine` of lib/cuckoo/common/quarantine.py stores.
use capev.Base.{
  ℕ, zero, suc, ◌+◌, ◌-◌, ◌%◌, ◌^◌, ◌<◌, ◌≤◌, ◌==◌, ◌≡◌, refl, ap, sym, subst, ◌∙◌, inl, inr, false,
  Option, none, some, List, [], ◌∷◌, length, ltb, min, get_elem?, bit_xor, arith, Bool-cases,
}
use native.Mathlib.Decide.{dec_lt}
use capev.Base.Bytes.{
  pack_u32, xor_at, xor_loop, xor_loop-outside, xor_loop-inside, length-xor_loop, get_elem?-drop,
}
use capev.Quarantine.Result.{Unquarantined, out_of_fuel, stored}
use capev.Quarantine.Trend.{
  Tags, byte_of, Cursor, crypt_word, Crypted, crypted, failed, stuck, word_key, word, crypt_on,
  crypt, store_rest, trend_body,
}

-- The cursor after the bytes of a word.
abbrev moved : ℕ → ℕ → ℕ → Option (List ℕ) → Option Cursor
moved cur left k none = none
moved cur left k (some ys) = some (cur + k, left - k, ys)

moved-suc :
    (cur left k : ℕ) (o : Option (List ℕ))
    → moved (suc cur) left k o ≡ moved cur (suc left) (suc k) o
moved-suc cur left k none = refl
moved-suc cur left k (some ys) =
    let c : suc cur + k ≡ cur + suc k = omega arith in
    let l : left - k ≡ suc left - suc k = omega arith in rw (c, l) refl

moved-zero : (cur left : ℕ) (xs : List ℕ) → some (cur, left, xs) ≡ moved cur left 0 (some xs)
moved-zero cur left xs =
    let c : cur + 0 ≡ cur = omega arith in let l : left - 0 ≡ left = omega arith in rw (c, l) refl

-- The loop over a word is the loop over as many bytes as are left.
crypt_word-xor_loop :
    (n i crc off cur left : ℕ) (xs : List ℕ)
    → cur ≡ off + i
    → crypt_word n i crc (cur, left, xs)
      ≡ moved cur left (min n left) (xor_loop (min n left) i off (λ j. byte_of j crc) xs)
unfolding crypt_word xor_loop
crypt_word-xor_loop zero i crc off cur left xs e =
    let none_left : min 0 left ≡ 0 = omega arith in rw none_left (moved-zero cur left xs)
crypt_word-xor_loop (suc n) i crc off cur zero xs e =
    let none_left : min (suc n) 0 ≡ 0 = omega arith in rw none_left (moved-zero cur 0 xs)
crypt_word-xor_loop (suc n) i crc off cur (suc left) xs e =
    let more : min (suc n) (suc left) ≡ suc (min n left) = omega arith in
    subst
      (λ k.
        crypt_word (suc n) i crc (cur, suc left, xs)
        ≡ moved cur (suc left) k (xor_loop k i off (λ j. byte_of j crc) xs))
      (sym more)
      (subst
        (λ c.
          crypt_word (suc n) i crc (c, suc left, xs)
          ≡ moved c (suc left) (suc (min n left))
              (xor_loop (suc (min n left)) i off (λ j. byte_of j crc) xs))
        (sym e)
        (go (xor_at xs (off + i) (byte_of i crc))
          (λ ys. crypt_word-xor_loop n (suc i) crc off (suc (off + i)) left ys (omega arith))))
  where
    go :
        (o : Option (List ℕ))
        → ((ys : List ℕ)
            → crypt_word n (suc i) crc (suc (off + i), left, ys)
              ≡ moved
                  (suc (off + i))
                  left
                  (min n left)
                  (xor_loop (min n left) (suc i) off (λ j. byte_of j crc) ys))
        → elim o [ none ↦ none | some ys ↦ crypt_word n (suc i) crc (suc (off + i), left, ys) ]
          ≡ moved (off + i) (suc left) (suc (min n left)) (elim o [
            | none ↦ none
            | some ys ↦ xor_loop (min n left) (suc i) off (λ j. byte_of j crc) ys
          ])
    go none h = refl
    go (some ys) h =
        h ys
        ∙ moved-suc (off + i) left (min n left)
            (xor_loop (min n left) (suc i) off (λ j. byte_of j crc) ys)

get_elem?-bound : (xs : List ℕ) (p v : ℕ) → get_elem? xs p ≡ some v → p < length xs
get_elem?-bound [] p v e = absurd (ground arith)
get_elem?-bound (x ∷ xs) zero v e = omega arith
get_elem?-bound (x ∷ xs) (suc p) v e = omega (arith, get_elem?-bound xs p v e)

module _ (crc32 : List ℕ → ℕ) where
  -- What changes the byte at `p`: the checksum of the key and the place of its word.
  abbrev pub trend_byte : ℕ → ℕ → ℕ
  trend_byte basekey p = byte_of (p % 4) (crc32 (pack_u32 (basekey + (p - p % 4))) % 2 ^ 32)

  -- The bytes before the cursor stay, those from it on are changed.
  abbrev CryptsFrom : ℕ → ℕ → List ℕ → Crypted → Type 0
  CryptsFrom basekey cur xs (crypted ys) =
      (p v : ℕ)
      → get_elem? xs p ≡ some v
      → (p < cur → get_elem? ys p ≡ some v)
        × (cur ≤ p → get_elem? ys p ≡ some (bit_xor v (trend_byte basekey p)))
  CryptsFrom basekey cur xs failed = Unit
  CryptsFrom basekey cur xs stuck = ⊥

  word_key-some :
      (keyval crc : ℕ) → word_key crc32 keyval ≡ some crc → crc ≡ crc32 (pack_u32 keyval) % 2 ^ 32
  word_key-some keyval crc e = elim (Bool-cases (ltb keyval (2 ^ 32))) [
    | inl q ↦ ground arith
    | inr q ↦ absurd (ground arith)
  ]

  -- A word, and then the rest.
  word-CryptsFrom :
      (basekey u off k crc : ℕ) (xs ys : List ℕ) (r : Crypted)
      → u + k ≤ 4
      → off % 4 ≡ 0
      → crc ≡ crc32 (pack_u32 (basekey + off)) % 2 ^ 32
      → xor_loop k u off (λ j. byte_of j crc) xs ≡ some ys
      → CryptsFrom basekey (off + u + k) ys r
      → CryptsFrom basekey (off + u) xs r
  word-CryptsFrom basekey u off k crc xs ys failed h z c e g = tt
  word-CryptsFrom basekey u off k crc xs ys stuck h z c e g = g
  word-CryptsFrom basekey u off k crc xs ys (crypted zs) h z c e g = λ p v q.
      let key : ℕ → ℕ = λ j. byte_of j crc in
      let before : p < off + u → get_elem? zs p ≡ some v =
        λ b. (g p v (xor_loop-outside k u off key xs ys p e (inl b) ∙ q)).0 (omega arith) in
      let behind : off + u + k ≤ p → get_elem? zs p ≡ some (bit_xor v (trend_byte basekey p)) =
        λ b. (g p v (xor_loop-outside k u off key xs ys p e (inr b) ∙ q)).1 b in
      let inside : off + u ≤ p
          → p < off + u + k
          → get_elem? zs p ≡ some (bit_xor v (trend_byte basekey p)) =
        λ b b'.
          let j = p - off in
          let place : off + j ≡ p = omega arith in
          let row : j ≡ p % 4 = omega arith in
          let base : off ≡ p - p % 4 = omega arith in
          let same : byte_of j crc ≡ trend_byte basekey p =
            ap (byte_of j) c
            ∙ ap (λ i. byte_of i (crc32 (pack_u32 (basekey + off)) % 2 ^ 32)) row
            ∙ ap (λ o. byte_of (p % 4) (crc32 (pack_u32 (basekey + o)) % 2 ^ 32)) base in
          let changed : get_elem? ys p ≡ some (bit_xor v (byte_of j crc)) =
            subst (λ i. get_elem? ys i ≡ some (bit_xor v (byte_of j crc))) place
              (xor_loop-inside k u off key xs ys j v e (omega arith) (omega arith)
                (ap (get_elem? xs) place ∙ q)) in
          (g p (bit_xor v (byte_of j crc)) changed).0 b' ∙ ap (λ w. some (bit_xor v w)) same in
      (
        before,
        λ b. elim (dec_lt p (off + u + k)) [ yes b' ↦ inside b b' | no b' ↦ behind (omega arith) ],
      )

  -- One round, with the rest of the loop as `f`.
  module _ (basekey u cur left : ℕ) (xs : List ℕ) (f : Cursor → Crypted) where
    abbrev size : ℕ
    size = min (4 - u) (suc left)

    round-CryptsFrom :
        u < 4
        → cur % 4 ≡ u
        → ((ys : List ℕ)
            → length ys ≡ length xs
            → CryptsFrom basekey (cur + size) ys (f (cur + size, suc left - size, ys)))
        → CryptsFrom basekey cur xs (crypt_on f (word crc32 basekey u (cur, suc left, xs)))
    round-CryptsFrom hu hc rest = keyed (word_key crc32 (basekey + (cur - u))) refl
      where
        here : cur ≡ cur - u + u
        here = omega arith

        looped :
            (crc : ℕ)
            → word_key crc32 (basekey + (cur - u)) ≡ some crc
            → (o : Option (List ℕ)) → xor_loop size u (cur - u) (λ j. byte_of j crc) xs ≡ o
            → CryptsFrom basekey cur xs (crypt_on f (moved cur (suc left) size o))
        looped crc e none q = tt
        looped crc e (some ys) q =
            let r = f (cur + size, suc left - size, ys) in
            subst (λ c. CryptsFrom basekey c xs r) (sym here)
              (word-CryptsFrom basekey u (cur - u) size crc xs ys r (omega arith) (omega arith)
                (word_key-some _ crc e) q
                (subst (λ c. CryptsFrom basekey (c + size) ys r) here
                  (rest ys (length-xor_loop size u (cur - u) (λ j. byte_of j crc) xs ys q))))

        keyed :
            (o : Option ℕ)
            → word_key crc32 (basekey + (cur - u)) ≡ o
            → CryptsFrom basekey cur xs (
                crypt_on f (elim o [
                  | none ↦ none
                  | some crc ↦ crypt_word (4 - u) u crc (cur, suc left, xs)
                ]))
        keyed none e = tt
        keyed (some crc) e =
            subst (λ c. CryptsFrom basekey cur xs (crypt_on f c))
              (sym (crypt_word-xor_loop (4 - u) u crc (cur - u) cur (suc left) xs here))
              (looped crc e (xor_loop size u (cur - u) (λ j. byte_of j crc) xs) refl)

  crypt-CryptsFrom :
      (fuel basekey u cur left : ℕ) (xs : List ℕ)
      → u < 4
      → left ≤ fuel
      → (0 < left → cur % 4 ≡ u)
      → length xs ≡ cur + left
      → CryptsFrom basekey cur xs (crypt crc32 fuel basekey u (cur, left, xs))
  unfolding crypt
  crypt-CryptsFrom zero basekey u cur zero xs hu hf hc hl =
      λ p v q. (λ b. q, λ b. absurd (omega (arith, get_elem?-bound xs p v q)))
  crypt-CryptsFrom (suc fuel) basekey u cur zero xs hu hf hc hl =
      λ p v q. (λ b. q, λ b. absurd (omega (arith, get_elem?-bound xs p v q)))
  crypt-CryptsFrom zero basekey u cur (suc left) xs hu hf hc hl = absurd (omega arith)
  crypt-CryptsFrom (suc fuel) basekey u cur (suc left) xs hu hf hc hl =
      let some_left : (suc left == 0) ≡ false = ground arith in
      let k = size basekey u cur left xs (crypt crc32 fuel basekey 0) in
      rw some_left (
        round-CryptsFrom basekey u cur left xs (crypt crc32 fuel basekey 0) hu (hc (omega arith))
          (λ ys e.
            crypt-CryptsFrom fuel basekey 0 (cur + k) (suc left - k) ys (omega arith) (omega arith)
              (λ b. omega (arith, hc (omega arith))) (omega arith)))

  -- What is stored of `xs` from the offset on: each byte, changed.
  abbrev pub Decrypted : ℕ → ℕ → List ℕ → Unquarantined → Type 0
  Decrypted basekey dataoffset xs (stored out name) =
      (i v : ℕ)
      → get_elem? xs (dataoffset + i) ≡ some v
      → get_elem? out i ≡ some (bit_xor v (trend_byte basekey (dataoffset + i)))
  Decrypted basekey dataoffset xs out_of_fuel = ⊥
  Decrypted basekey dataoffset xs r = Unit

  store_rest-Decrypted :
      (basekey dataoffset : ℕ) (xs : List ℕ) (r : Crypted)
      → CryptsFrom basekey dataoffset xs r
      → Decrypted basekey dataoffset xs (store_rest crc32 dataoffset r)
  store_rest-Decrypted basekey dataoffset xs (crypted ys) h =
      λ i v q. get_elem?-drop dataoffset i ys ∙ (h (dataoffset + i) v q).1 (omega arith)
  store_rest-Decrypted basekey dataoffset xs failed h = tt
  store_rest-Decrypted basekey dataoffset xs stuck h = h

  -- For every checksum function and all data, with the encryption method 2 the Trend Micro decoder
  -- ends after the tags, and if it stores a file, each byte of the file is the byte of the data
  -- changed by the byte of the checksum of its word, however the data is aligned.
  pub trend_body-Decrypted :
      (dataoffset : ℕ) (t : Tags) (xs : List ℕ)
      → t.encmethod ≡ 2
      → Decrypted t.basekey dataoffset xs (trend_body crc32 dataoffset t xs)
  unfolding trend_body
  trend_body-Decrypted dataoffset t xs e = elim (Bool-cases (ltb (length xs) dataoffset)) [
    | inl q ↦ rw (e, q) tt
    | inr q ↦
        rw (e, q)
          (store_rest-Decrypted t.basekey dataoffset xs _ (
            crypt-CryptsFrom (length xs) t.basekey (dataoffset % 4) dataoffset
              (length xs - dataoffset) xs (omega arith) (omega arith) (λ b. refl) (ground arith)))
  ]
