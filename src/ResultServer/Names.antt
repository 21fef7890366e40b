-- ===== src/ResultServer/Names.antt =====
-- `netlog_sanitize_fname` of lib/cuckoo/core/resultserver.py: the paths that a guest may write to.
pub mod Inside
use capev.Base.{
  ℕ, ◌==◌, Bool, true, false, ◌&&◌, ◌||◌, Option, none, some, List, [], ◌∷◌, ◌++◌, any, is_empty,
  map, if◌then◌else◌,
}
use capev.Base.Bytes.{codes, same_bytes}

-- `path.replace(b"\\", b"/")`
abbrev pub slashed : List ℕ → List ℕ
slashed path = map (λ c. if c == 92 then 47 else c) path

-- The parts up to the last slash, with it, and after it.
unfoldable pub split_last : List ℕ → Option (List ℕ × List ℕ)
split_last [] = none
split_last (c ∷ cs) = elim (split_last cs) [
  | some p ↦ some (c ∷ p.0, p.1)
  | none ↦ if c == 47 then some (c ∷ [], cs) else none
]

-- `rstrip("/")`
unfoldable pub strip_slashes : List ℕ → List ℕ
strip_slashes [] = []
strip_slashes (c ∷ cs) =
    let rest = strip_slashes cs in if is_empty rest && c == 47 then [] else c ∷ rest

-- A directory of slashes only keeps them.
abbrev pub directory : List ℕ → List ℕ
directory head = if is_empty (strip_slashes head) then head else strip_slashes head

-- `os.path.split`
unfoldable pub split_path : List ℕ → List ℕ × List ℕ
split_path path = elim (split_last path) [ none ↦ ([], path) | some p ↦ (directory p.0, p.1) ]

-- `RESULT_DIRECTORIES`
abbrev pub result_directories : List (List ℕ)
result_directories =
    codes "CAPE"
    ∷ codes "aux"
    ∷ codes "buffer"
    ∷ codes "curtain"
    ∷ codes "debugger"
    ∷ codes "tlsdump"
    ∷ codes "extracted"
    ∷ codes "files"
    ∷ codes "memory"
    ∷ codes "procdump"
    ∷ codes "shots"
    ∷ codes "sysmon"
    ∷ codes "stap"
    ∷ codes "evtx"
    ∷ codes "reports"
    ∷ codes "logs"
    ∷ []

-- `BANNED_PATH_CHARS`
abbrev pub is_banned : ℕ → Bool
is_banned c = c == 0 || c == 58

-- `for c in BANNED_PATH_CHARS: path.replace(bytes([c]), b"X")`: the new texts are not kept.
abbrev pub replace_banned : List ℕ → List ℕ
replace_banned path = path

-- `none` is the `CuckooOperationalError` for a banned path.
unfoldable pub netlog_sanitize_fname : List ℕ → Option (List ℕ)
netlog_sanitize_fname raw =
    let path = slashed raw in
    let (dir_part, name) = split_path path in
    if any (same_bytes dir_part) result_directories
    then some (if any is_banned name then replace_banned path else path)
    else none
