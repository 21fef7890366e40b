-- ===== src/PrettyPrint/Lossless.antt =====
-- How the printed flags of lib/cuckoo/common/utils_pretty_print_funcs.py relate to the number.
use Prim.Native.Nat.{bit_or}
use capev.Base.{
  ℕ, zero, suc, ◌≡◌, ◌≢◌, refl, ◌⊎◌, inl, inr, List, [], ◌∷◌, arith, ◌==◌, true, false, bit_and,
  All,
}
use capev.Base.Bits.{clear-and}
use capev.PrettyPrint.Flags.{
  Piece, named, rest, Test, drop, mark, drop_all, mark_all, sweep, clear, pieces,
}

whole :
    (val w mask : ℕ)
    → ((m : ℕ) → bit_and val m ≡ 0 → bit_and w m ≡ 0)
    → (bit_and w mask == mask) ≡ true
    → (mask ≡ 0) ⊎ (bit_and val mask ≢ 0)
whole val w zero h q = inl refl
whole val w (suc m) h q = inr (λ z. ground (arith, h (suc m) z))

-- The flag of a name is in the number.
abbrev pub Supported : ℕ → Piece → Type 0
Supported val (named mask name) = (mask ≡ 0) ⊎ (bit_and val mask ≢ 0)
Supported val (rest n) = Unit

named-Supported :
    (tests : List Test) (val w remove : ℕ)
    → ((m : ℕ) → bit_and val m ≡ 0 → bit_and w m ≡ 0)
    → All (Supported val) (pieces tests w remove)
unfolding pieces
named-Supported [] val w remove h = ground arith
named-Supported (drop mask name ∷ tests) val w remove h =
    elim (bit_and w mask == 0)
        as (λ b.
          (bit_and w mask == 0) ≡ b
          → All (Supported val) (elim b [
            | true ↦ pieces tests w remove
            | false ↦ named mask name ∷ pieces tests (clear w mask) remove
          ])) [
            | true ↦ λ q. named-Supported tests val w remove h
            | false ↦ λ q. (
              inr (λ z. ground (arith, h mask z)),
              named-Supported tests val (clear w mask) remove (λ m z. clear-and w mask m (h m z)),
            )
          ]
      refl
named-Supported (mark mask name ∷ tests) val w remove h =
    elim (bit_and w mask == 0)
        as (λ b.
          (bit_and w mask == 0) ≡ b
          → All (Supported val) (elim b [
            | true ↦ pieces tests w remove
            | false ↦ named mask name ∷ pieces tests w (bit_or remove mask)
          ])) [
            | true ↦ λ q. named-Supported tests val w remove h
            | false ↦ λ q. (
              inr (λ z. ground (arith, h mask z)),
              named-Supported tests val w (bit_or remove mask) h,
            )
          ]
      refl
named-Supported (drop_all mask name ∷ tests) val w remove h =
    elim (bit_and w mask == mask)
        as (λ b.
          (bit_and w mask == mask) ≡ b
          → All (Supported val) (elim b [
            | true ↦ named mask name ∷ pieces tests (clear w mask) remove
            | false ↦ pieces tests w remove
          ])) [
            | true ↦ λ q. (
              whole val w mask h q,
              named-Supported tests val (clear w mask) remove (λ m z. clear-and w mask m (h m z)),
            )
            | false ↦ λ q. named-Supported tests val w remove h
          ]
      refl
named-Supported (mark_all mask name ∷ tests) val w remove h =
    elim (bit_and w mask == mask)
        as (λ b.
          (bit_and w mask == mask) ≡ b
          → All (Supported val) (elim b [
            | true ↦ named mask name ∷ pieces tests w (bit_or remove mask)
            | false ↦ pieces tests w remove
          ])) [
            | true ↦ λ q. (whole val w mask h q, named-Supported tests val w (bit_or remove mask) h)
            | false ↦ λ q. named-Supported tests val w remove h
          ]
      refl
named-Supported (sweep ∷ tests) val w remove h =
    named-Supported tests val (clear w remove) remove (λ m z. clear-and w remove m (h m z))

-- A decoder of any tests prints a name only if its mask is zero or has a digit in common with the
-- number.
pieces-Supported : (tests : List Test) (val : ℕ) → All (Supported val) (pieces tests val 0)
pieces-Supported tests val = named-Supported tests val val 0 (λ m z. z)
