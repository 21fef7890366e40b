-- ===== src/ResultServer/Lines.antt =====
-- Reading from a connection: `HandlerContext.read`, `read_newline` and `drain_buffer` of
-- lib/cuckoo/core/resultserver.py.
pub mod Chunking
use capev.Base.{
  ℕ, zero, suc, ◌+◌, ◌≤◌, ◌<◌, ◌≡◌, refl, ◌≢◌, Bool, true, false, Option, none, some, List, [], ◌∷◌,
  ◌++◌, length, take, drop, leb, ltb, ◌==◌, All, arith, if◌then◌else◌,
}

-- What one `sock.recv(16384)` returns or raises.
pub data Recv : Type 0 where
  received : List ℕ → Recv
  timeout bad_descriptor connection_reset other_socket_error other_exception : Recv

-- `read`: bytes, `None`, or an exception.
pub data Read : Type 0 where
  got : List ℕ → Read
  nothing raised : Read

unfoldable pub read : Recv → Read
read (received xs) = got xs
read timeout = got []
read bad_descriptor = got []
read connection_reset = got []
read other_socket_error = raised
read other_exception = nothing

-- How `read_newline` ends. `waiting` is no end: the given results of `recv` are used up.
pub data Line : Type 0 where
  line : List ℕ → Line
  too_long end_of_file read_error type_error waiting : Line

-- The outcome, the buffer, and the results of `recv` that are left.
pub record Lined : Type 0 where
  pub outcome : Line
  pub buf : List ℕ
  pub rest : List Recv

-- `find`, with the index of the first byte.
abbrev pub find : ℕ → List ℕ → Option ℕ
find c [] = none
find c (x ∷ xs) =
    if x == c then some 0 else (elim (find c xs) [ none ↦ none | some i ↦ some (suc i) ])

-- A round of the loop, up to the call of `read`; `more` is the rest of the round.
unfoldable pub split_buffer : List ℕ → List Recv → Lined → Lined
split_buffer buf rest more = elim (find 10 buf) [
  | some pos ↦ record { outcome = line (take pos buf); buf = drop (pos + 1) buf; rest = rest }
  | none ↦
      if leb 4096 (length buf) then record { outcome = too_long; buf = buf; rest = rest } else more
]

unfoldable pub read_newline : List Recv → List ℕ → Lined
unfolding split_buffer read
read_newline [] buf = split_buffer buf [] (record { outcome = waiting; buf = buf; rest = [] })
read_newline (r ∷ rs) buf = split_buffer buf (r ∷ rs) (elim (read r) [
  | got [] ↦ record { outcome = end_of_file; buf = buf; rest = rs }
  | got (x ∷ xs) ↦ read_newline rs (buf ++ (x ∷ xs))
  | nothing ↦ record { outcome = type_error; buf = buf; rest = rs }
  | raised ↦ record { outcome = read_error; buf = buf; rest = rs }
])
