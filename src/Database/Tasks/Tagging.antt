-- ===== src/Database/Tasks/Tagging.antt =====
-- The names of tags that lib/cuckoo/core/database.py reads from texts: `_get_linux_vm_tag`, and the
-- comma-separated tags of `add`. A text is read by its code points; capitals are those of ASCII,
-- as in the descriptions that libmagic gives.
use Prim.Native.Char.{code}
use Prim.Native.String.{◌++◌ as ◌+++◌}
use text.Mathlib.TextLemmas.{nil-append, cons-append, append-ne-nil_of_right_ne-nil, cons-ne-nil}
use capev.Base.{
  ℕ, ◌==◌, ◌+◌, ◌≡◌, refl, ap, ◌≢◌, inl, inr, Bool, true, false, not, ◌&&◌, ◌||◌, Option, none,
  some, List, [], ◌∷◌, ◌++◌, map, any, all, keep, leb, if◌then◌else◌, arith, String, sym, ◌∙◌,
  str_eq, eq_iff, eq_refl, Bool-cases, length, take,
}
use capev.Base.Bytes.{codes, same_bytes}
use capev.Database.Sql.{truthy}
use capev.Database.Machines.Setup.{prefix}

abbrev pub lower_code : ℕ → ℕ
lower_code c = if leb b'A' c && leb c b'Z' then c + 32 else c

abbrev pub begins : List ℕ → List ℕ → Bool
begins text part = same_bytes (take (length part) text) part

-- `part in text`
abbrev pub contains : List ℕ → List ℕ → Bool
contains [] part = begins [] part
contains (c ∷ text) part = begins (c ∷ text) part || contains text part

-- `text.endswith(part)`
abbrev pub ends : List ℕ → List ℕ → Bool
ends [] part = same_bytes [] part
ends (c ∷ text) part = same_bytes (c ∷ text) part || ends text part

-- `VALID_LINUX_TYPES`
abbrev pub valid_linux_types : List String
valid_linux_types = "Bourne-Again" ∷ "POSIX shell script" ∷ "ELF" ∷ "Python" ∷ []

-- `mgtype.startswith(VALID_LINUX_TYPES)`
unfoldable pub is_linux_type : List ℕ → Bool
is_linux_type text = any (λ type. begins text (codes type)) valid_linux_types

-- The tests in their order, each with the tag that it gives.
unfoldable pub arch_tag : List ℕ → String
arch_tag text =
    if contains text (codes "mipsel")
    then "mipsel"
    else if contains text (codes "mips")
    then "mips"
    else if contains text (codes "arm")
    then "arm"
    else if contains text (codes "sparc")
    then "sparc"
    else if contains text (codes "powerpc")
    then "powerpc"
    else if contains text (codes "32-bit")
    then "x32"
    else if contains text (codes "elf 64-bit") && contains text (codes "x86-64")
    then "x64"
    else "x64"

-- `none` stands for the `False` that it returns.
unfoldable pub get_linux_vm_tag : String → Option String
unfolding is_linux_type arch_tag
get_linux_vm_tag mgtype =
    let text = map lower_code (codes mgtype) in
    if is_linux_type text
      && not (contains text (codes "motorola"))
      && not (contains text (codes "renesas"))
    then none
    else some (arch_tag text)

-- `tags += f",{name}"`, or the name alone if there are no tags.
unfoldable pub add_tag : Option String → String → String
add_tag none name = name
add_tag (some tags) name = if truthy (some tags) then tags +++ ("," +++ name) else name

-- `str.isspace` of one character.
abbrev pub is_space : ℕ → Bool
is_space c =
    leb 9 c && leb c 13
    || leb 28 c && leb c 32
    || leb 8192 c && leb c 8202
    || any (λ k. c == k) (133 ∷ 160 ∷ 5760 ∷ 8232 ∷ 8233 ∷ 8239 ∷ 8287 ∷ 12288 ∷ [])

-- `if tag.strip()`
unfoldable pub is_named : String → Bool
is_named tag = not (all is_space (codes tag))

-- `tags.split(",")`
unfoldable pub split_comma : String → List String
split_comma String.[] = "" ∷ []
split_comma (String.◌∷◌ c s) =
    let rest = split_comma s in if code c == 44 then "" ∷ rest else prefix c rest

-- The names in the tags that are not blank.
unfoldable pub tag_names : Option String → List String
unfolding is_named split_comma
tag_names none = []
tag_names (some tags) = if truthy (some tags) then keep is_named (split_comma tags) else []

module _ (c : ℕ) where
  lower_code-small : (leb b'A' (lower_code c) && leb (lower_code c) b'Z') ≡ false
  lower_code-small = ground arith

-- A lowered text begins with no capital.
lower-begins :
    (d : ℕ) (text part : List ℕ)
    → (leb b'A' d && leb d b'Z') ≡ true
    → begins (map lower_code text) (d ∷ part) ≡ false
lower-begins d [] part h = refl
lower-begins d (c ∷ text) part h = ground (arith, lower_code-small c)

pub lower-is_linux_type : (text : List ℕ) → is_linux_type (map lower_code text) ≡ false
unfolding is_linux_type
lower-is_linux_type text =
    rw
      (
        lower-begins b'B' text (codes "ourne-Again") refl,
        lower-begins b'P' text (codes "OSIX shell script") refl,
        lower-begins b'E' text (codes "LF") refl,
        lower-begins b'P' text (codes "ython") refl,
      )
      refl

-- Every type of file gets a tag: the test for Linux types compares a text in small letters with
-- capitals, so it never holds.
pub get_linux_vm_tag-tag :
    (mgtype : String) → get_linux_vm_tag mgtype ≡ some (arch_tag (map lower_code (codes mgtype)))
unfolding get_linux_vm_tag
get_linux_vm_tag-tag mgtype = rw (lower-is_linux_type (codes mgtype)) refl

split_comma_cases : (s : String) → (x : String) × (xs : List String) × (split_comma s ≡ x ∷ xs)
unfolding split_comma
split_comma_cases String.[] = ("", [], refl)
split_comma_cases (String.◌∷◌ c s) =
    let (x, xs, e) = split_comma_cases s in
    elim (Bool-cases (code c == 44)) [
      | inl comma ↦ ("", x ∷ xs, rw comma (ap (◌∷◌ "") e))
      | inr other ↦ (String.◌∷◌ c x, xs, rw other (ap (prefix c) e))
    ]

-- The names before a comma and those after it.
pub split_comma-append :
    (s t : String) → split_comma (s +++ ("," +++ t)) ≡ split_comma s ++ split_comma t
unfolding split_comma
split_comma-append String.[] t = rw (nil-append ("," +++ t), cons-append _ _ t, nil-append t) refl
split_comma-append (String.◌∷◌ c s) t =
    let (x, xs, e) = split_comma_cases s in
    rw (cons-append c s ("," +++ t), split_comma-append s t, e)
      (elim (Bool-cases (code c == 44)) [ inl comma ↦ rw comma refl | inr other ↦ rw other refl ])

comma-ne-nil : (t : String) → ("," +++ t) ≢ ""
comma-ne-nil t e = cons-ne-nil _ ("" +++ t) (sym (cons-append _ "" t) ∙ e)

joined_truthy : (s t : String) → truthy (some (s +++ ("," +++ t))) ≡ true
joined_truthy s t =
    ground (arith, eq_iff (s +++ ("," +++ t)) "", append-ne-nil_of_right_ne-nil s (comma-ne-nil t))

keep-append_any :
    (p q : String → Bool) (xs : List String) (y : String)
    → p y ≡ true
    → q y ≡ true
    → any q (keep p (xs ++ (y ∷ []))) ≡ true
keep-append_any p q [] y h k = ground arith
keep-append_any p q (x ∷ xs) y h k = ground (arith, keep-append_any p q xs y h k)

-- The name that is added is among the names, if it is one.
pub tag_names-add_tag :
    (tags : Option String) (name : String)
    → split_comma name ≡ name ∷ []
    → is_named name ≡ true
    → truthy (some name) ≡ true
    → any (λ tag. str_eq tag name) (tag_names (some (add_tag tags name))) ≡ true
unfolding add_tag tag_names
tag_names-add_tag none name e h k = rw (k, e, h, eq_refl name) refl
tag_names-add_tag (some tags) name e h k = elim (Bool-cases (truthy (some tags))) [
  | inl t ↦
      rw (t, joined_truthy tags name, split_comma-append tags name, e)
        (keep-append_any is_named (λ tag. str_eq tag name) (split_comma tags) name h (eq_refl name))
  | inr t ↦ rw (t, k, e, h, eq_refl name) refl
]
