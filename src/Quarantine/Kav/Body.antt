-- ===== src/Quarantine/Kav/Body.antt =====
-- What `kav_unquarantine` of lib/cuckoo/common/quarantine.py stores.
use capev.Base.{
  ℕ, zero, suc, ◌+◌, ◌<◌, ◌≤◌, ◌==◌, ◌≡◌, refl, subst, ◌∙◌, ◌≢◌, inl, inr, Bool, true, false, not,
  List, arith, length, Option, none, some, ltb, leb, String, get_elem?, bit_xor, Bool-cases,
}
use capev.Base.Bytes.{
  slice, unpack_u32, xor_loop, xor_loop-outside, xor_loop-inside, get_elem?-slice,
}
use capev.Quarantine.Result.{
  Unquarantined, raised, nothing, out_of_fuel, stored, ◌>>=◌, then_ends, check_ends,
}
use capev.Quarantine.Kav.{
  entry_name, kav_byte, kav_body, kav_entries, kav_checked, kav_unquarantine,
}

-- What the decoder makes of the body: nothing is stored, or each byte of it changed by the key.
abbrev pub Decrypts : ℕ → ℕ → List ℕ → Unquarantined → Type 0
Decrypts headerlen origlen xs (stored out name) =
    (i v : ℕ)
    → i < origlen
    → get_elem? xs (headerlen + i) ≡ some v
    → get_elem? out i ≡ some (bit_xor v (kav_byte i))
Decrypts headerlen origlen xs out_of_fuel = ⊥
Decrypts headerlen origlen xs _ = Unit

kav_body-Decrypts :
    (headerlen origlen : ℕ) (name : String) (xs : List ℕ)
    → Decrypts headerlen origlen xs (kav_body headerlen origlen name xs)
unfolding kav_body
kav_body-Decrypts headerlen origlen name xs = go (xor_loop origlen 0 headerlen kav_byte xs) refl
  where
    go :
        (o : Option (List ℕ))
        → xor_loop origlen 0 headerlen kav_byte xs ≡ o
        → Decrypts headerlen origlen xs
            (o >>= (λ ys. stored (slice ys headerlen (headerlen + origlen)) name))
    go none e = tt
    go (some ys) e = λ i v h g.
        get_elem?-slice ys headerlen (headerlen + origlen) i (omega arith)
        ∙ xor_loop-inside origlen 0 headerlen kav_byte xs ys i v e (omega arith) (omega arith) g

-- Bytes that agree on the body are decrypted alike.
Decrypts-cong :
    (headerlen origlen : ℕ) (xs ys : List ℕ) (r : Unquarantined)
    → ((p : ℕ) → p < headerlen + origlen → get_elem? ys p ≡ get_elem? xs p)
    → Decrypts headerlen origlen ys r
    → Decrypts headerlen origlen xs r
Decrypts-cong headerlen origlen xs ys raised same h = tt
Decrypts-cong headerlen origlen xs ys nothing same h = tt
Decrypts-cong headerlen origlen xs ys out_of_fuel same h = absurd h
Decrypts-cong headerlen origlen xs ys (stored out name) same h =
    λ i v l g. h i v l (same (headerlen + i) (omega arith) ∙ g)

-- The rest of a round, from the result of a step that may raise.
module _ (headerlen origlen : ℕ) where
  then-Decrypts :
      {A : Type 0} (xs : List ℕ) (o : Option A) (f : A → Unquarantined)
      → ((a : A) → o ≡ some a → Decrypts headerlen origlen xs (f a))
      → Decrypts headerlen origlen xs (o >>= f)
  then-Decrypts xs none f h = tt
  then-Decrypts xs (some a) f h = h a refl

  branch-Decrypts :
      (xs : List ℕ) (b : Bool) (r s : Unquarantined)
      → Decrypts headerlen origlen xs r
      → (b ≡ false → Decrypts headerlen origlen xs s)
      → Decrypts headerlen origlen xs (elim b [ true ↦ r | false ↦ s ])
  branch-Decrypts xs true r s h k = h
  branch-Decrypts xs false r s h k = k refl

module _ (text path_text : List ℕ → String) where
  entries-Decrypts :
      (fuel headerlen origlen stop cur len : ℕ) (name : String) (xs : List ℕ)
      → headerlen + origlen ≤ cur
      → cur ≤ stop
      → stop < fuel + cur
      → Decrypts headerlen origlen xs
          (kav_entries text path_text fuel headerlen origlen stop cur len name xs)
  unfolding kav_entries
  entries-Decrypts zero headerlen origlen stop cur len name xs b c f = absurd (omega arith)
  entries-Decrypts (suc fuel) headerlen origlen stop cur zero name xs b c f =
      kav_body-Decrypts headerlen origlen name xs
  entries-Decrypts (suc fuel) headerlen origlen stop cur (suc l) name xs b c f =
      let next = cur + 4 + suc l in
      let follow : ℕ → List ℕ → ℕ → Unquarantined = λ idlen ys len.
        kav_entries text path_text fuel headerlen origlen stop next len
          (entry_name text path_text cur (suc l) idlen name ys) ys in
      let body : ℕ → List ℕ → Unquarantined = λ idlen ys.
        kav_body headerlen origlen (entry_name text path_text cur (suc l) idlen name ys) ys in
      let rest : ℕ → List ℕ → Unquarantined =
        λ idlen ys. unpack_u32 (slice ys next (next + 4)) >>= follow idlen ys in
      let branch : List ℕ → ℕ → Unquarantined =
        λ ys idlen. elim (leb stop next) [ true ↦ body idlen ys | false ↦ rest idlen ys ] in
      let entry : List ℕ → Unquarantined =
        λ ys. unpack_u32 (slice ys (cur + 4) (cur + 8)) >>= branch ys in
      then-Decrypts headerlen origlen xs (xor_loop (suc l) 0 (cur + 4) kav_byte xs) entry (λ ys e.
        Decrypts-cong headerlen origlen xs ys (entry ys)
          (λ p h. xor_loop-outside (suc l) 0 (cur + 4) kav_byte xs ys p e (inl (omega arith)))
          (then-Decrypts headerlen origlen ys (unpack_u32 (slice ys (cur + 4) (cur + 8)))
            (branch ys)
            (λ idlen _.
              branch-Decrypts headerlen origlen ys (leb stop next) (body idlen ys) (rest idlen ys)
                (kav_body-Decrypts headerlen origlen
                  (entry_name text path_text cur (suc l) idlen name ys) ys)
                (λ q.
                  let below : next < stop = ground arith in
                  then-Decrypts headerlen origlen ys (unpack_u32 (slice ys next (next + 4)))
                    (follow idlen ys)
                    (λ len _.
                      entries-Decrypts fuel headerlen origlen stop next len
                        (entry_name text path_text cur (suc l) idlen name ys) ys (omega arith)
                        (omega arith) (omega arith))))))

  checked-Decrypts :
      (headerlen metaoffset metalen origlen : ℕ) (xs : List ℕ)
      → Decrypts headerlen origlen xs
          (kav_checked text path_text headerlen metaoffset metalen origlen xs)
  unfolding kav_checked
  checked-Decrypts headerlen metaoffset metalen origlen xs =
      elim (Bool-cases (ltb (length xs) (headerlen + origlen + metalen))) [
        | inl e ↦ rw e tt
        | inr e ↦ rw e (elim (Bool-cases (ltb metaoffset (headerlen + origlen))) [
          | inl q ↦ rw q tt
          | inr q ↦ rw q (
              then-Decrypts headerlen origlen xs (unpack_u32 (slice xs metaoffset (metaoffset + 4)))
                (λ len.
                  kav_entries text path_text (metalen + 1) headerlen origlen (metaoffset + metalen)
                    metaoffset len "KAVDequarantineFile" xs)
                (λ len _.
                  entries-Decrypts (metalen + 1) headerlen origlen (metaoffset + metalen) metaoffset
                    len "KAVDequarantineFile" xs (ground arith) (omega arith) (omega arith)))
        ])
      ]

checked_ends :
    (text path_text : List ℕ → String) (headerlen metaoffset metalen origlen : ℕ) (xs : List ℕ)
    → kav_checked text path_text headerlen metaoffset metalen origlen xs ≢ out_of_fuel
checked_ends text path_text headerlen metaoffset metalen origlen xs e =
    subst (Decrypts headerlen origlen xs) e
      (checked-Decrypts text path_text headerlen metaoffset metalen origlen xs)

-- On every file the loop of the Kaspersky decoder over the metadata ends within the given rounds.
pub kav_unquarantine_ends :
    (text path_text : List ℕ → String) (xs : List ℕ)
    → kav_unquarantine text path_text xs ≢ out_of_fuel
unfolding kav_unquarantine
kav_unquarantine_ends text path_text xs =
    let field : ℕ → ℕ → Option ℕ = λ a b. unpack_u32 (slice xs a b) in
    let checked = kav_checked text path_text in
    then_ends (field 0 4) _ (λ magic. check_ends (not (magic == 0x42514c4b)) _ (
      then_ends (field 8 12) _ (λ a.
        then_ends (field 0x10 0x14)
          (λ b. field 0x20 0x24 >>= (λ c. field 0x30 0x34 >>= (λ d. checked a b c d xs)))
          (λ b.
            then_ends (field 0x20 0x24) (λ c. field 0x30 0x34 >>= (λ d. checked a b c d xs))
              (λ c.
                then_ends (field 0x30 0x34) (λ d. checked a b c d xs)
                  (λ d. checked_ends text path_text a b c d xs))))))

-- If the Kaspersky decoder stores a file, each byte of its body is the byte of the quarantine
-- file changed by the repeated key, whatever entries of metadata were decrypted before, for all
-- fields of the header.
pub kav_checked_body :
    (text path_text : List ℕ → String) (headerlen metaoffset metalen origlen : ℕ) (xs out : List ℕ)
    (name : String) (i v : ℕ)
    → kav_checked text path_text headerlen metaoffset metalen origlen xs ≡ stored out name
    → i < origlen
    → get_elem? xs (headerlen + i) ≡ some v
    → get_elem? out i ≡ some (bit_xor v (kav_byte i))
kav_checked_body text path_text headerlen metaoffset metalen origlen xs out name i v e l g =
    subst (Decrypts headerlen origlen xs) e
      (checked-Decrypts text path_text headerlen metaoffset metalen origlen xs) i v l g
