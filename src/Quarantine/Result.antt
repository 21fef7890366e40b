-- ===== src/Quarantine/Result.antt =====
-- What a decoder of lib/cuckoo/common/quarantine.py does: `store_temp_file(data, name)`, `return
-- None`, or an exception. `out_of_fuel` is no
-- end of the code: a loop of the model used up its rounds.
use capev.Base.{
  ℕ, ◌≢◌, Bool, true, false, arith, if◌then◌else◌, String, List, Option, none, some, map, bit_xor,
}

pub data Unquarantined : Type 0 where
  raised nothing out_of_fuel : Unquarantined
  stored : List ℕ → String → Unquarantined

-- A step that may raise.
infixl 5 ◌>>=◌
abbrev pub ◌>>=◌ {ℓ} : {A : Type ℓ} → Option A → (A → Unquarantined) → Unquarantined
none >>= f = raised
some a >>= f = f a

-- `bytearray_xor`
unfoldable pub bytearray_xor : List ℕ → ℕ → List ℕ
bytearray_xor xs key = map (λ x. bit_xor x key) xs

-- No step runs out of fuel if its parts do not.
pub then_ends :
    {A : Type 0} (o : Option A) (f : A → Unquarantined)
    → ((a : A) → f a ≢ out_of_fuel)
    → (o >>= f) ≢ out_of_fuel
then_ends none f h = λ e. absurd (ground arith)
then_ends (some a) f h = h a

pub check_ends :
    (b : Bool) (r : Unquarantined) → r ≢ out_of_fuel → (if b then nothing else r) ≢ out_of_fuel
check_ends true r h = λ e. absurd (ground arith)
check_ends false r h = h
