-- ===== src/Behavior/Calls.antt =====
-- modules/processing/behavior.py: a logged call, and how the classes read its arguments. A text is
-- the list of its code points.
use capev.Base.{Bool, if◌then◌else◌, length, List, [], ◌∷◌, Option, none, some, take, ℕ, String}
use capev.Base.Bytes.{codes, same_bytes}

abbrev pub Text : Type 0
Text = List ℕ

-- A raw value: bytes, or a text that is still to be encoded.
pub data Raw : Type 0 where
  bytes : List ℕ → Raw
  text : Text → Raw

pub record Argument : Type 0 where
  pub name : Text
  pub value : Text
  pub raw_value : Raw

pub record Call : Type 0 where
  pub api : Text
  pub category : Text
  pub status : Bool
  pub arguments : List Argument

-- Python's text functions, which the classes call: `int` of a text to a base (none: it raises an
-- error), `strip`, `lower` and `encode`. The numbers that a call logs are not negative.
pub record Python : Type 0 where
  pub int : ℕ → Text → Option ℕ
  pub strip : Text → Text
  pub lower : Text → Text
  pub encode : Text → List ℕ

abbrev pub argument : Text → List Argument → Option Argument
argument argname [] = none
argument argname (arg ∷ args) =
    let rest = argument argname args in if same_bytes arg.name argname then some arg else rest

abbrev pub value_of : Option Argument → Option Text
value_of none = none
value_of (some arg) = some arg.value

abbrev pub raw_of : Option Argument → Option Raw
raw_of none = none
raw_of (some arg) = some arg.raw_value

unfoldable pub get_argument : Call → String → Option Text
get_argument call argname = value_of (argument (codes argname) call.arguments)

abbrev pub stripped : (Text → Text) → Option Text → Option Text
stripped strip none = none
stripped strip (some t) = some (strip t)

-- `get_argument` with `strip=True`
unfoldable pub get_stripped : Python → Call → String → Option Text
unfolding get_argument
get_stripped py call argname = stripped py.strip (get_argument call argname)

unfoldable pub get_raw_argument : Call → String → Option Raw
get_raw_argument call argname = raw_of (argument (codes argname) call.arguments)

-- `call["api"] == name`
unfoldable pub api_is : Call → String → Bool
api_is call name = same_bytes call.api (codes name)

-- `call["api"].startswith(name)`
unfoldable pub api_starts : Call → String → Bool
api_starts call name = same_bytes (take (length (codes name)) call.api) (codes name)

unfoldable pub category_is : Call → String → Bool
category_is call name = same_bytes call.category (codes name)
