-- ===== src/Behavior/Texts.antt =====
-- modules/processing/behavior.py: the operations on texts that `Summary.event_apicall` calls.
use capev.Base.{
  Bool, true, false, if◌then◌else◌, [], ◌∷◌, ◌==◌, ◌&&◌, ◌||◌, ℕ, any, Option, some, none, ◌++◌,
}
use capev.Base.Bytes.{codes}
use capev.Behavior.Calls.{Text}

-- `text.split(sep, 1)[0]`
unfoldable pub before_first : ℕ → Text → Text
before_first sep [] = []
before_first sep (c ∷ cs) = let rest = c ∷ before_first sep cs in if c == sep then [] else rest

-- `text.rsplit(sep, 1)[-1]`
unfoldable pub after_last : ℕ → Text → Text
after_last sep [] = []
after_last sep (c ∷ cs) =
    let rest = after_last sep cs in
    if any (λ d. d == sep) cs then rest else if c == sep then cs else c ∷ cs

-- `text.rsplit(sep, 1)[0]`
unfoldable pub before_last : ℕ → Text → Text
before_last sep [] = []
before_last sep (c ∷ cs) =
    let rest = c ∷ before_last sep cs in
    if any (λ d. d == sep) cs then rest else if c == sep then [] else c ∷ cs

unfoldable pub prefixes : Text → Text → Bool
prefixes [] cs = true
prefixes (b ∷ bs) [] = false
prefixes (b ∷ bs) (c ∷ cs) = b == c && prefixes bs cs

-- `base in firstarg`
unfoldable pub contains : Text → Text → Bool
unfolding prefixes
contains base [] = prefixes base []
contains base (c ∷ cs) = prefixes base (c ∷ cs) || contains base cs

-- The second character is a colon.
abbrev pub has_drive : Text → Bool
has_drive [] = false
has_drive (a ∷ []) = false
has_drive (a ∷ b ∷ cs) = b == 58

abbrev pub with_drive : Text → Option Text
with_drive t = if has_drive t then some t else none

abbrev pub truthy : Option Text → Bool
truthy none = false
truthy (some []) = false
truthy (some (c ∷ cs)) = true

-- `a or b`, as the code writes it with a second test.
abbrev pub or_else : Option Text → Option Text → Option Text
or_else none other = other
or_else (some []) other = other
or_else (some (c ∷ cs)) other = some (c ∷ cs)

-- A value in an f-string.
abbrev pub shown : Option Text → Text
shown none = codes "None"
shown (some t) = t

-- `f"{path} {params}" if path else None`
abbrev pub command : Option Text → Option Text → Option Text
command none params = none
command (some []) params = none
command (some (c ∷ cs)) params = some ((c ∷ cs) ++ (32 ∷ shown params))

-- The program that a command line names: up to the closing quote, or to the first space.
abbrev pub first_arg : Text → Text
first_arg [] = []
first_arg (c ∷ cs) = if c == 34 then before_first 34 cs else before_first 32 (c ∷ cs)

-- The command line, after the application's name if its base is not named there.
abbrev pub full_command : Text → Text → Text
full_command appname cmdline =
    if contains (before_last 46 (after_last 92 appname)) (first_arg cmdline)
    then cmdline
    else appname ++ (32 ∷ cmdline)

abbrev pub process_command : Option Text → Option Text → Option Text
process_command none cmdline = cmdline
process_command (some []) cmdline = cmdline
process_command (some (a ∷ as')) none = none
process_command (some (a ∷ as')) (some []) = some []
process_command (some (a ∷ as')) (some (c ∷ cs)) = some (full_command (a ∷ as') (c ∷ cs))
