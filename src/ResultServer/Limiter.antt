-- ===== src/ResultServer/Limiter.antt =====
-- Storing an upload: `WriteLimiter` and `HandlerContext.copy_to_fd` of lib/cuckoo/core/resultserver.py.
pub mod Truncation
use capev.Base.{
  ℕ, zero, suc, ◌+◌, ◌-◌, ◌==◌, Bool, true, false, not, ◌&&◌, List, [], ◌∷◌, ◌++◌, length, take,
  if◌then◌else◌, min,
}
use capev.Base.Bytes.{codes}
use capev.ResultServer.Lines.{Recv, Read, got, nothing, raised, read}

abbrev pub marker : List ℕ
marker = codes "... (truncated)"

-- The limiter with the bytes that its file holds.
pub record Limiter : Type 0 where
  pub fd : List ℕ
  pub remain : ℕ
  pub warned : Bool

-- `if write: …`
abbrev pub write_part : ℕ → List ℕ → Limiter → Limiter
write_part n buf w =
    if n == 0 then w else record w { fd = w.fd ++ take n buf; remain = w.remain - n }

-- `if not self.warned: …`
abbrev pub warn : Limiter → Limiter
warn w = if w.warned then w else record w { fd = w.fd ++ marker; warned = true }

unfoldable pub write : List ℕ → Limiter → Limiter
write buf w =
    let size = length buf in
    let n = min size w.remain in
    let w' = write_part n buf w in if not (size == 0) && not (size == n) then warn w' else w'

-- The file that a handler writes to, as it is or through a limiter.
pub data Sink : Type 0 where
  plain : List ℕ → Sink
  limited : Limiter → Sink

abbrev pub contents : Sink → List ℕ
contents (plain xs) = xs
contents (limited w) = w.fd

abbrev pub write_to : List ℕ → Sink → Sink
write_to buf (plain xs) = plain (xs ++ buf)
write_to buf (limited w) = limited (write buf w)

-- `if max_size: fd = WriteLimiter(fd, max_size)`; a limit of 0 is none.
abbrev pub open_sink : ℕ → List ℕ → Sink
open_sink max_size xs =
    if max_size == 0
    then plain xs
    else limited (record { fd = xs; remain = max_size; warned = false })

pub data Ended : Type 0 where
  finished read_error type_error waiting : Ended

-- The loop of `copy_to_fd` over the results of `recv`; `waiting` is no end.
unfoldable pub copy_loop : List Recv → Sink → Ended × Sink
unfolding read
copy_loop [] fd = (waiting, fd)
copy_loop (r ∷ rs) fd = elim (read r) [
  | got [] ↦ (finished, fd)
  | got (x ∷ xs) ↦ copy_loop rs (write_to (x ∷ xs) fd)
  | nothing ↦ (type_error, fd)
  | raised ↦ (read_error, fd)
]

-- `buf` is what `drain_buffer` returns.
unfoldable pub copy_to_fd : List Recv → List ℕ → ℕ → List ℕ → Ended × Sink
copy_to_fd rs buf max_size file = copy_loop rs (write_to buf (open_sink max_size file))
