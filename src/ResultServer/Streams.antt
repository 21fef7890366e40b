-- ===== src/ResultServer/Streams.antt =====
-- `LogHandler` and `BsonStore` of lib/cuckoo/core/resultserver.py: the log of an analysis and the
-- streams of its processes, which are copied without a limit.
use capev.Base.{
  ℕ, ◌≡◌, refl, ap, sym, ◌∙◌, Bool, true, false, not, ◌&&◌, Option, none, some, List, [], ◌∷◌, ◌++◌,
  keep, if◌then◌else◌, append_assoc, append_empty,
}
use capev.Base.Bytes.{codes, same_bytes}
use capev.ResultServer.Lines.{
  Recv, received, timeout, bad_descriptor, connection_reset, other_socket_error, other_exception,
}
use capev.ResultServer.Limiter.{plain, contents, copy_loop, copy_to_fd}
use capev.ResultServer.Limiter.Truncation.{upload}
use capev.ResultServer.Upload.{Files}

abbrev log_path : List ℕ
log_path = codes "analysis.log"

-- `copy_to_fd` to a new file.
abbrev stream_to : List ℕ → List ℕ → List Recv → Files → Files
stream_to path buf rs files = (path, contents (copy_to_fd rs buf 0 []).1) ∷ files

-- `open_exclusive` raises an `OSError` for a file that is there, which `is_there` tells; then `handle`
-- does nothing.
unfoldable handle_log : (List ℕ → Files → Bool) → Bool → List ℕ → List Recv → Files → Files
handle_log is_there opens buf rs files =
    if opens && not (is_there log_path files) then stream_to log_path buf rs files else files

-- `logs/<version>.bson`, where `shown` is the version in decimal digits.
abbrev bson_path : List ℕ → List ℕ
bson_path shown = codes "logs/" ++ (shown ++ codes ".bson")

-- Without a version nothing is read; a file that is there is overwritten.
unfoldable handle_bson : Option (List ℕ) → List ℕ → List Recv → Files → Files
handle_bson none buf rs files = files
handle_bson (some shown) buf rs files =
    stream_to (bson_path shown) buf rs
      (keep (λ (f : List ℕ × List ℕ). not (same_bytes f.0 (bson_path shown))) files)

copy_loop-plain :
    (rs : List Recv) (xs : List ℕ) → contents (copy_loop rs (plain xs)).1 ≡ xs ++ upload rs
unfolding copy_loop
copy_loop-plain [] xs = sym (append_empty xs)
copy_loop-plain (received [] ∷ rs) xs = sym (append_empty xs)
copy_loop-plain (received (y ∷ ys) ∷ rs) xs =
    copy_loop-plain rs (xs ++ (y ∷ ys)) ∙ append_assoc xs (y ∷ ys) (upload rs)
copy_loop-plain (timeout ∷ rs) xs = sym (append_empty xs)
copy_loop-plain (bad_descriptor ∷ rs) xs = sym (append_empty xs)
copy_loop-plain (connection_reset ∷ rs) xs = sym (append_empty xs)
copy_loop-plain (other_socket_error ∷ rs) xs = sym (append_empty xs)
copy_loop-plain (other_exception ∷ rs) xs = sym (append_empty xs)

-- The log of a first session is all that was sent; a second session changes nothing, if a file that
-- was made is there.
handle_log_once :
    (is_there : List ℕ → Files → Bool) (buf buf' : List ℕ) (rs rs' : List Recv) (files : Files)
    → ((xs : List ℕ) → is_there log_path ((log_path, xs) ∷ files) ≡ true)
    → is_there log_path files ≡ false
    → (handle_log is_there true buf rs files ≡ (log_path, buf ++ upload rs) ∷ files)
      × (handle_log is_there true buf' rs' (handle_log is_there true buf rs files)
          ≡ handle_log is_there true buf rs files)
unfolding handle_log copy_to_fd
handle_log_once is_there buf buf' rs rs' files made new = rw new (
  ap (λ l. (log_path, l) ∷ files) (copy_loop-plain rs buf),
  rw (made (contents (copy_loop rs (plain buf)).1)) refl,
)
