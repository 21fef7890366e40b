-- ===== src/Aplib/Reader.antt =====
-- The state of the decoder and what it reads: `APDSTATE`, `ap_getbit` and `ap_getgamma` of
-- lib/cuckoo/common/aplib.py.
use capev.Base.{
  ℕ, zero, suc, ◌+◌, ◌-◌, ◌*◌, ◌/◌, ◌%◌, ◌==◌, true, false, Option, none, some, List, [], ◌∷◌, ◌++◌,
  length, get_elem?, leb, if◌then◌else◌,
}

-- `APDSTATE`; `source` is what `read` has left.
pub record State : Type 0 where
  pub source : List ℕ
  pub destination : List ℕ
  pub tag : ℕ
  pub bitcount : ℕ

-- The value and the state after it, an exception, or more rounds of a loop than it was given.
pub data Decoded (A : Type 0) : Type 0 where
  ok : A → State → Decoded A
  raised out_of_fuel : Decoded A

abbrev pub Decoding : Type 0 → Type 0
Decoding A = State → Decoded A

module _ {A : Type 0} where
  abbrev pub pure : A → Decoding A
  pure a s = ok a s

module _ {A B : Type 0} where
  abbrev pub continue : Decoded A → (A → Decoding B) → Decoded B
  continue (ok a s) f = f a s
  continue raised f = raised
  continue out_of_fuel f = out_of_fuel

  infixl 5 ◌>>=◌
  abbrev pub ◌>>=◌ : Decoding A → (A → Decoding B) → Decoding B
  ◌>>=◌ m f s = continue (m s) f

-- `bit = ud.tag >> 7 & 0x01` and `ud.tag <<= 1`
abbrev pub shift : Decoding ℕ
shift s = ok (s.tag / 128 % 2) (record s { tag = s.tag * 2 })

-- `ud.tag = ord(ud.source.read(1))` and `ud.bitcount = 7`, and the shift; `ord` raises at the end.
abbrev pub load : List ℕ → Decoding ℕ
load [] s = raised
load (c ∷ cs) s = shift (record s { source = cs; tag = c; bitcount = 7 })

-- A bit count that would fall below zero asks for the next tag.
unfoldable pub ap_getbit : Decoding ℕ
ap_getbit s =
    if s.bitcount == 0 then load s.source s else shift (record s { bitcount = s.bitcount - 1 })

-- The bits that are left.
abbrev pub bits : State → ℕ
bits s = 8 * length s.source + s.bitcount

-- The loop, with the rounds that it is given.
unfoldable pub gamma_loop : ℕ → ℕ → Decoding ℕ
gamma_loop zero result s = out_of_fuel
gamma_loop (suc n) result s = continue (ap_getbit s) (λ b s1. continue (ap_getbit s1) (λ more s2.
    elim (more == 0) [ true ↦ ok (2 * result + b) s2 | false ↦ gamma_loop n (2 * result + b) s2 ]))

unfoldable pub ap_getgamma : Decoding ℕ
ap_getgamma s = gamma_loop (bits s + 1) 1 s

-- `ord(ud.source.read(1))`
abbrev pub take_byte : List ℕ → Decoding ℕ
take_byte [] s = raised
take_byte (c ∷ cs) s = ok c (record s { source = cs })

unfoldable pub read_byte : Decoding ℕ
read_byte s = take_byte s.source s

-- `ud.destination += ud.source.read(1)`, which adds nothing at the end of the source.
abbrev pub move : List ℕ → State → State
move [] s = s
move (c ∷ cs) s = record s { source = cs; destination = s.destination ++ (c ∷ []) }

unfoldable pub copy_byte : Decoding Unit
copy_byte s = ok tt (move s.source s)

-- `ud.destination.append(value)`
unfoldable pub append : ℕ → Decoding Unit
append value s = ok tt (record s { destination = s.destination ++ (value ∷ []) })

-- `destination[-offs]`; `none` stands for the offset -1, and -0 is 0.
unfoldable pub item : Option ℕ → List ℕ → Option ℕ
item none xs = get_elem? xs 1
item (some zero) xs = get_elem? xs 0
item (some (suc n)) xs = if leb (suc n) (length xs) then get_elem? xs (length xs - suc n) else none

-- `for _ in range(length): ud.destination.append(ud.destination[-offs])`
unfoldable pub copy_back : Option ℕ → ℕ → List ℕ → Option (List ℕ)
copy_back offs zero xs = some xs
copy_back offs (suc n) xs = elim (item offs xs) [
  | none ↦ none
  | some v ↦ copy_back offs n (xs ++ (v ∷ []))
]

abbrev pub with_copied : Option (List ℕ) → Decoding Unit
with_copied none s = raised
with_copied (some xs) s = ok tt (record s { destination = xs })

unfoldable pub copy : Option ℕ → ℕ → Decoding Unit
copy offs n s = with_copied (copy_back offs n s.destination) s
