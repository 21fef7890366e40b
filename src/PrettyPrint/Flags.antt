-- ===== src/PrettyPrint/Flags.antt =====
-- What the flag decoders of lib/cuckoo/common/utils_pretty_print_funcs.py share. A decoder is its
-- list of tests in their order; `val` is the number that `int` reads from the argument, and not
-- negative.
use Prim.Native.String.{◌++◌ as ◌+++◌}
use capev.Base.{
  ℕ, zero, suc, ◌+◌, ◌-◌, ◌/◌, ◌%◌, String, true, false, List, [], ◌∷◌, ◌==◌, if◌then◌else◌,
  bit_and, bit_xor, Option, none, some, get_elem?,
}
use Prim.Native.Nat.{bit_or}

-- The hexadecimal digits of `val`, at least `width` of them, in front of `digits`.
unfoldable pub hex_from : ℕ → ℕ → ℕ → List ℕ → List ℕ
hex_from zero width val digits = digits
hex_from (suc fuel) zero zero digits = digits
hex_from (suc fuel) (suc width) zero digits = hex_from fuel width 0 (0 ∷ digits)
hex_from (suc fuel) width (suc val) digits =
    hex_from fuel (width - 1) (suc val / 16) (suc val % 16 ∷ digits)

-- The digits of `f"{val:08x}"`.
unfoldable pub hex_digits : ℕ → List ℕ
hex_digits val = hex_from (8 + val) 8 val []

abbrev pub digit : ℕ → String
digit d =
    elim (get_elem? {A = String}
      ("0" ∷ "1" ∷ "2" ∷ "3" ∷ "4" ∷ "5" ∷ "6" ∷ "7" ∷ "8" ∷ "9" ∷ "a" ∷ "b" ∷ "c" ∷ "d" ∷ "e" ∷ "f"
        ∷ [])
      d) [ none ↦ "" | some text ↦ text ]

abbrev pub digits_text : List ℕ → String
digits_text [] = ""
digits_text (d ∷ ds) = digit d +++ digits_text ds

-- What a decoder appends: the name of a flag with its mask, or the number that is left.
pub data Piece : Type 0 where
  named : ℕ → String → Piece
  rest : ℕ → Piece

abbrev pub piece_text : Piece → String
piece_text (named mask name) = name
piece_text (rest val) = "0x" +++ digits_text (hex_digits val)

-- `"|".join(res)`
abbrev pub joined : List Piece → String
joined [] = ""
joined (p ∷ []) = piece_text p
joined (p ∷ q ∷ ps) = piece_text p +++ ("|" +++ joined (q ∷ ps))

-- The tests. `drop` and `mark` look for a bit of the mask, `drop_all` and `mark_all` for all its
-- bits; the first of each clears the mask in `val`, the second adds it to `remove`. `sweep` is
-- `val &= ~remove`.
pub data Test : Type 0 where
  drop mark drop_all mark_all : ℕ → String → Test
  sweep : Test

-- `val & ~mask`
abbrev pub clear : ℕ → ℕ → ℕ
clear val mask = bit_xor val (bit_and val mask)

-- The tests from one on, with `val` and `remove`, and the number that is left.
unfoldable pub pieces : List Test → ℕ → ℕ → List Piece
pieces [] val remove = if val == 0 then [] else rest val ∷ []
pieces (drop mask name ∷ tests) val remove = elim (bit_and val mask == 0) [
  | true ↦ pieces tests val remove
  | false ↦ named mask name ∷ pieces tests (clear val mask) remove
]
pieces (mark mask name ∷ tests) val remove = elim (bit_and val mask == 0) [
  | true ↦ pieces tests val remove
  | false ↦ named mask name ∷ pieces tests val (bit_or remove mask)
]
pieces (drop_all mask name ∷ tests) val remove = elim (bit_and val mask == mask) [
  | true ↦ named mask name ∷ pieces tests (clear val mask) remove
  | false ↦ pieces tests val remove
]
pieces (mark_all mask name ∷ tests) val remove = elim (bit_and val mask == mask) [
  | true ↦ named mask name ∷ pieces tests val (bit_or remove mask)
  | false ↦ pieces tests val remove
]
pieces (sweep ∷ tests) val remove = pieces tests (clear val remove) remove

-- A decoder: the values that have a name of their own, and the tests for all others.
pub record Decoder : Type 0 where
  pub exact : List (ℕ × String)
  pub tests : List Test

abbrev pub exact_name : List (ℕ × String) → ℕ → Option String
exact_name [] val = none
exact_name ((value, name) ∷ exact) val = if val == value then some name else exact_name exact val

-- The text for `val`.
unfoldable pub decode : Decoder → ℕ → String
decode d val = elim (exact_name (Decoder.exact d) val) [
  | some name ↦ name
  | none ↦ joined (pieces (Decoder.tests d) val 0)
]
