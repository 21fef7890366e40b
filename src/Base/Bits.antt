-- ===== src/Base/Bits.antt =====
-- Binary digits of two numbers: exclusive or, which undoes itself, and a single binary digit.
use Prim.Native.Nat.{
  ℕ, zero, suc, ◌+◌, ◌*◌, ◌/◌, ◌%◌, ◌≤◌, ◌<◌, ◌^◌, min, bit_xor, digits, differ, bit_xor-bitwise,
  bit_and, bit_and-bitwise,
}
use mathlib.Core.Path.{◌≡◌, refl, ap}
use mathlib.Core.Logic.{◌⊎◌, inl, inr}
use native.Mathlib.Omega.{arith}

differ_lem : (x y : ℕ) → x < 2 → y < 2 → differ x y ≡ (x + y) % 2
differ_lem zero y h k = omega arith
differ_lem (suc zero) zero h k = refl
differ_lem (suc zero) (suc y) h k = omega arith
differ_lem (suc (suc x)) y h k = absurd (omega arith)

-- The digit recursion with any fuel that suffices.
abbrev run : ℕ → ℕ → ℕ → ℕ
run n a b = digits (λ c. c) differ n a b

run_fuel : (n m a b : ℕ) → a ≤ n → a ≤ m → run n a b ≡ run m a b
run_fuel zero zero a b p q = refl
run_fuel zero (suc m) zero b p q = refl
run_fuel zero (suc m) (suc a) b p q = absurd (omega arith)
run_fuel (suc n) zero zero b p q = refl
run_fuel (suc n) zero (suc a) b p q = absurd (omega arith)
run_fuel (suc n) (suc m) zero b p q = refl
run_fuel (suc n) (suc m) (suc a) b p q =
    rw (run_fuel n m (suc a / 2) (b / 2) (omega arith) (omega arith))

zero-xor : (b : ℕ) → bit_xor 0 b ≡ b
zero-xor b = bit_xor-bitwise 0 b

xor_step : (a b : ℕ) → bit_xor a b ≡ bit_xor (a / 2) (b / 2) * 2 + (a + b) % 2
xor_step zero b = omega (arith, zero-xor b, zero-xor (b / 2))
xor_step (suc a) b = omega (
  arith,
  bit_xor-bitwise (suc a) b,
  bit_xor-bitwise (suc a / 2) (b / 2),
  run_fuel a (suc a / 2) (suc a / 2) (b / 2) (omega arith) (omega arith),
  differ_lem (suc a % 2) (b % 2) (omega arith) (omega arith),
)

xor-zero_fuel : (n a : ℕ) → a ≤ n → bit_xor a 0 ≡ a
xor-zero_fuel n zero h = zero-xor 0
xor-zero_fuel zero (suc a) h = absurd (omega arith)
xor-zero_fuel (suc n) (suc a) h =
    omega (arith, xor_step (suc a) 0, xor-zero_fuel n (suc a / 2) (omega arith))

xor_twice_fuel : (n a b : ℕ) → a ≤ n → bit_xor a (bit_xor a b) ≡ b
xor_twice_fuel n zero b h = omega (arith, zero-xor b, zero-xor (bit_xor 0 b))
xor_twice_fuel zero (suc a) b h = absurd (omega arith)
xor_twice_fuel (suc n) (suc a) b h =
    let half : bit_xor (suc a) b / 2 ≡ bit_xor (suc a / 2) (b / 2) =
      omega (arith, xor_step (suc a) b) in
    let rest : bit_xor (suc a / 2) (bit_xor (suc a) b / 2) ≡ b / 2 =
      rw half (xor_twice_fuel n (suc a / 2) (b / 2) (omega arith)) in
    omega (arith, xor_step (suc a) (bit_xor (suc a) b), xor_step (suc a) b, rest)

-- Exclusive or with a number undoes itself.
pub xor_twice : (a b : ℕ) → bit_xor a (bit_xor a b) ≡ b
xor_twice a b = xor_twice_fuel a a b (omega arith)

xor_comm_fuel : (n a b : ℕ) → a ≤ n → bit_xor a b ≡ bit_xor b a
xor_comm_fuel n zero b h = omega (arith, zero-xor b, xor-zero_fuel b b (omega arith))
xor_comm_fuel zero (suc a) b h = absurd (omega arith)
xor_comm_fuel (suc n) (suc a) b h = omega (
  arith,
  xor_step (suc a) b,
  xor_step b (suc a),
  xor_comm_fuel n (suc a / 2) (b / 2) (omega arith),
)

pub xor_comm : (a b : ℕ) → bit_xor a b ≡ bit_xor b a
xor_comm a b = xor_comm_fuel a a b (omega arith)

-- The digit recursion of `bit_and` with any fuel that suffices.
abbrev run_and : ℕ → ℕ → ℕ → ℕ
run_and n a b = digits (λ c. zero) min n a b

run_and_fuel : (n m a b : ℕ) → a ≤ n → a ≤ m → run_and n a b ≡ run_and m a b
run_and_fuel zero zero a b p q = refl
run_and_fuel zero (suc m) zero b p q = refl
run_and_fuel zero (suc m) (suc a) b p q = absurd (omega arith)
run_and_fuel (suc n) zero zero b p q = refl
run_and_fuel (suc n) zero (suc a) b p q = absurd (omega arith)
run_and_fuel (suc n) (suc m) zero b p q = refl
run_and_fuel (suc n) (suc m) (suc a) b p q =
    rw (run_and_fuel n m (suc a / 2) (b / 2) (omega arith) (omega arith))

zero-and : (b : ℕ) → bit_and 0 b ≡ 0
zero-and b = bit_and-bitwise 0 b

and_step : (a b : ℕ) → bit_and a b ≡ bit_and (a / 2) (b / 2) * 2 + min (a % 2) (b % 2)
and_step zero b = omega (arith, zero-and b, zero-and (b / 2))
and_step (suc a) b = omega (
  arith,
  bit_and-bitwise (suc a) b,
  bit_and-bitwise (suc a / 2) (b / 2),
  run_and_fuel a (suc a / 2) (suc a / 2) (b / 2) (omega arith) (omega arith),
)

and-zero_fuel : (n a : ℕ) → a ≤ n → bit_and a 0 ≡ 0
and-zero_fuel n zero h = zero-and 0
and-zero_fuel zero (suc a) h = absurd (omega arith)
and-zero_fuel (suc n) (suc a) h =
    omega (arith, and_step (suc a) 0, and-zero_fuel n (suc a / 2) (omega arith))

-- A number has a single binary digit or lacks it.
pub and-digit : (k a : ℕ) → (bit_and a (2 ^ k) ≡ 0) ⊎ (bit_and a (2 ^ k) ≡ 2 ^ k)
and-digit zero a =
    ground (arith, and_step a 1, zero-and 0, and-zero_fuel (a / 2) (a / 2) (omega arith))
and-digit (suc k) a =
    let half : 2 ^ suc k / 2 ≡ 2 ^ k = omega arith in
    let step = and_step a (2 ^ suc k) in
    let even : (2 ^ suc k) % 2 ≡ 0 = omega arith in
    elim (and-digit k (a / 2)) [
      | inl h ↦ inl (omega (arith, step, even, ap (bit_and (a / 2)) half, h))
      | inr h ↦ inr (omega (arith, step, even, ap (bit_and (a / 2)) half, h))
    ]

-- Removing the digits that a mask has and adding them again gives the number back.
pub xor-and_back : (a m : ℕ) → bit_xor (bit_and a m) (bit_xor a (bit_and a m)) ≡ a
xor-and_back a m = rw (xor_comm a (bit_and a m)) (xor_twice (bit_and a m) a)

-- A number without the digits of `k`: its half and its last digit.
clear_half : (a k : ℕ) → bit_xor a (bit_and a k) / 2 ≡ bit_xor (a / 2) (bit_and (a / 2) (k / 2))
clear_half a k =
    let below : bit_and a k / 2 ≡ bit_and (a / 2) (k / 2) = omega (arith, and_step a k) in
    omega (arith, xor_step a (bit_and a k), ap (bit_xor (a / 2)) below)

clear_last : (a k : ℕ) → bit_xor a (bit_and a k) % 2 ≡ (a % 2 + min (a % 2) (k % 2)) % 2
clear_last a k = omega (arith, xor_step a (bit_and a k), and_step a k)

clear_fuel : (n v k m : ℕ) → v ≤ n → bit_and v m ≡ 0 → bit_and (bit_xor v (bit_and v k)) m ≡ 0
clear_fuel n zero k m h e = rw (zero-and k) (rw (zero-xor 0) (zero-and m))
clear_fuel zero (suc v) k m h e = absurd (omega arith)
clear_fuel (suc n) (suc v) k m h e =
    let a = suc v in
    let w = bit_xor a (bit_and a k) in
    let ih = clear_fuel n (a / 2) (k / 2) (m / 2) (omega arith) (omega (arith, e, and_step a m)) in
    omega (
      arith,
      and_step w m,
      and_step a m,
      clear_last a k,
      ap (λ x. bit_and x (m / 2)) (clear_half a k),
      ih,
      e,
    )

-- Clearing digits sets no other.
pub clear-and : (v k m : ℕ) → bit_and v m ≡ 0 → bit_and (bit_xor v (bit_and v k)) m ≡ 0
clear-and v k m e = clear_fuel v v k m (omega arith) e

keep_fuel :
    (n v k m : ℕ) → v ≤ n → bit_and k m ≡ 0 → bit_and (bit_xor v (bit_and v k)) m ≡ bit_and v m
keep_fuel n zero k m h e = rw (zero-and k) (rw (zero-xor 0) refl)
keep_fuel zero (suc v) k m h e = absurd (omega arith)
keep_fuel (suc n) (suc v) k m h e =
    let a = suc v in
    let w = bit_xor a (bit_and a k) in
    let ih = keep_fuel n (a / 2) (k / 2) (m / 2) (omega arith) (omega (arith, e, and_step k m)) in
    omega (
      arith,
      and_step w m,
      and_step a m,
      and_step k m,
      clear_last a k,
      ap (λ x. bit_and x (m / 2)) (clear_half a k),
      ih,
      e,
    )

-- Clearing digits keeps those of a mask that has none of them.
pub clear-disjoint :
    (v k m : ℕ) → bit_and k m ≡ 0 → bit_and (bit_xor v (bit_and v k)) m ≡ bit_and v m
clear-disjoint v k m e = keep_fuel v v k m (omega arith) e
