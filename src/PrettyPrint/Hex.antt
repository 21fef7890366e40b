-- ===== src/PrettyPrint/Hex.antt =====
-- The hexadecimal number that a flag decoder appends.
use capev.Base.{
  ℕ, zero, suc, ◌+◌, ◌-◌, ◌*◌, ◌/◌, ◌%◌, ◌≤◌, ◌≡◌, refl, ap, ◌∙◌, List, [], ◌∷◌, arith, length,
}
use capev.PrettyPrint.Flags.{hex_from, hex_digits}

-- The number that a list of hexadecimal digits stands for, after a number read before it.
abbrev pub read : ℕ → List ℕ → ℕ
read n [] = n
read n (d ∷ ds) = read (n * 16 + d) ds

read-hex_from :
    (fuel width val : ℕ) (ds : List ℕ)
    → val ≤ fuel
    → read 0 (hex_from fuel width val ds) ≡ read val ds
unfolding hex_from
read-hex_from zero width zero ds h = refl
read-hex_from zero width (suc val) ds h = absurd (omega arith)
read-hex_from (suc fuel) zero zero ds h = refl
read-hex_from (suc fuel) (suc width) zero ds h = read-hex_from fuel width 0 (0 ∷ ds) (omega arith)
read-hex_from (suc fuel) width (suc val) ds h =
    let n = suc val in
    read-hex_from fuel (width - 1) (n / 16) (n % 16 ∷ ds) (omega arith)
    ∙ ap (λ k. read k ds) (omega arith)

length-hex_from :
    (fuel width val : ℕ) (ds : List ℕ)
    → width ≤ fuel
    → width + length ds ≤ length (hex_from fuel width val ds)
unfolding hex_from
length-hex_from zero width val ds h = omega arith
length-hex_from (suc fuel) zero zero ds h = omega arith
length-hex_from (suc fuel) (suc width) zero ds h =
    omega (arith, length-hex_from fuel width 0 (0 ∷ ds) (omega arith))
length-hex_from (suc fuel) width (suc val) ds h =
    let n = suc val in
    omega (arith, length-hex_from fuel (width - 1) (n / 16) (n % 16 ∷ ds) (omega arith))

-- For every number, reading its printed hexadecimal digits gives the number back, and there are
-- at least eight.
hex_digits-read : (val : ℕ) → (read 0 (hex_digits val) ≡ val) × (8 ≤ length (hex_digits val))
unfolding hex_digits
hex_digits-read val = (
  read-hex_from (8 + val) 8 val [] (omega arith),
  omega (arith, length-hex_from (8 + val) 8 val [] (omega arith)),
)
