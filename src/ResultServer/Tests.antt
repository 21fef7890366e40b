-- ===== src/ResultServer/Tests.antt =====
-- The result server at small inputs; numbers are one decimal digit here.
use capev.Base.{
  any, ℕ, ◌≡◌, ◌==◌, ◌-◌, length, not, all, All, ◌≢◌, refl, Bool, true, ◌&&◌, Option, none, some,
  List, [], ◌∷◌, ◌++◌, if◌then◌else◌, leb, ltb, member, arith, inl,
}
use capev.Base.Bytes.{codes, same_bytes}
use capev.ResultServer.Lines.{Recv, received, timeout, read_newline}
use capev.ResultServer.Lines.Chunking.{payload, Splits, read_newline-Splits, IsLine}
use capev.ResultServer.Limiter.{finished, contents, copy_to_fd}
use capev.ResultServer.Limiter.Truncation.{truncated, copy_to_fd-truncated}
use capev.ResultServer.Names.{netlog_sanitize_fname, slashed, split_path, split_last, strip_slashes}
use capev.ResultServer.Names.Inside.{Inside, netlog_sanitize_fname-Inside}
use capev.ResultServer.Protocol.{Ints, words, negotiate, protocol, file_upload}
use capev.ResultServer.Sessions.{
  Session, Step, adds, connects, negotiates, run, empty, del_task, step, add_task, connect,
  negotiated,
}
use capev.ResultServer.Sessions.Cancel.{del_task-cancels}
use capev.ResultServer.Upload.{System, handle, log_entry, all_ints}
use capev.ResultServer.Upload.Stored.{Sent, message, header, handle-truncated}

abbrev chunks : List Recv
chunks = received (codes "LE 2") ∷ received (10 ∷ codes "shots") ∷ []

read_newline-Splits_example :
    Splits (codes "FI" ++ payload chunks) 6 (read_newline chunks (codes "FI"))
read_newline-Splits_example =
    read_newline-Splits chunks (codes "FI") 6 (omega arith, (omega arith, tt)) refl (omega arith)

-- The limit is passed inside the second chunk.
copy_to_fd-truncated_example :
    contents (copy_to_fd (received (2 ∷ 3 ∷ []) ∷ timeout ∷ []) (1 ∷ []) 2 []).1
    ≡ truncated 2 (1 ∷ 2 ∷ 3 ∷ [])
copy_to_fd-truncated_example =
    copy_to_fd-truncated (received (2 ∷ 3 ∷ []) ∷ timeout ∷ []) (1 ∷ []) [] 2 (omega arith)

-- A colon stays in the name.
sanitized : netlog_sanitize_fname (codes "shots\\a:b") ≡ some (codes "shots/a:b")
unfolding netlog_sanitize_fname split_path split_last strip_slashes
sanitized = refl

netlog_sanitize_fname-Inside_example :
    (codes "shots/a:b" ≡ slashed (codes "shots\\a:b")) × Inside (codes "shots/a:b")
netlog_sanitize_fname-Inside_example =
    netlog_sanitize_fname-Inside (codes "shots\\a:b") (codes "shots/a:b") sanitized

abbrev history : List Step
history = adds 4 "10.0.0.2" ∷ connects 1 "10.0.0.2" ∷ negotiates 1 ∷ []

abbrev session : Session
session = record { ctx = 1; ip = "10.0.0.2"; task_id = 4 }

is_running : (del_task 4 "10.0.0.2" (run history empty)).running ≡ session ∷ []
unfolding run step add_task connect negotiated del_task
is_running = refl

del_task-cancels_example : member 1 (del_task 4 "10.0.0.2" (run history empty)).cancelled ≡ true
del_task-cancels_example =
    del_task-cancels history 4 "10.0.0.2" session (rw is_running (inl refl)) refl

abbrev digits : Ints ℕ
digits = record { int = digit; is_zero = λ n. n == 0; is_two_or_more = λ n. leb 2 n }
  where
    digit : List ℕ → Option ℕ
    digit (c ∷ []) = if leb 48 c && leb c 57 then some (c - 48) else none
    digit _ = none

header_line : negotiate digits (codes "FILE 2") ≡ protocol file_upload (some 2)
unfolding negotiate words
header_line = refl

abbrev is_line : List ℕ → Bool
is_line l = all (λ c. not (c == 10)) l && ltb (length l) 4096

all_no_newline : (l : List ℕ) → all (λ c. not (c == 10)) l ≡ true → All (λ c. c ≢ 10) l
all_no_newline [] e = tt
all_no_newline (c ∷ cs) e = (ground arith, all_no_newline cs (ground arith))

all_lines : (ls : List (List ℕ)) → all is_line ls ≡ true → All IsLine ls
all_lines [] e = tt
all_lines (l ∷ ls) e =
    ((all_no_newline l (ground arith), ground arith), all_lines ls (ground arith))

path_ok : netlog_sanitize_fname (codes "files/a") ≡ some (codes "files/a")
unfolding netlog_sanitize_fname split_path split_last strip_slashes
path_ok = refl

pids_ok : all_ints digits (words [] (codes "4 2")) ≡ some (4 ∷ 2 ∷ [])
unfolding words
pids_ok = refl

no_pids : all_ints digits (words [] []) ≡ some []
unfolding words
no_pids = refl

abbrev sent : Sent digits
sent = record {
  raw = codes "files/a";
  filepath = codes "C:";
  pids_line = codes "4 2";
  ppids_line = [];
  metadata = codes "m";
  category = codes "files";
  duplicated_line = codes "0";
  path = codes "files/a";
  pids = 4 ∷ 2 ∷ [];
  ppids = [];
  duplicated = 0;
  lines =
      all_lines
        (codes "files/a"
          ∷ codes "C:"
          ∷ codes "4 2"
          ∷ []
          ∷ codes "m"
          ∷ codes "files"
          ∷ codes "0"
          ∷ [])
        refl;
  is_path = path_ok;
  is_pids = pids_ok;
  is_ppids = no_pids;
  is_duplicated = refl;
}

-- Nothing is there but what was made, in the same spelling.
abbrev system : System
system = record {
  decodes = λ p. true;
  exists = λ p files. any (λ (f : List ℕ × List ℕ). same_bytes f.0 p) files;
  opens = λ p. true;
}

abbrev upload_message : List ℕ
upload_message = message sent (1 ∷ 2 ∷ 3 ∷ [])

-- Three bytes for a limit of two, which arrive with the header; then the connection ends.
handle-truncated_example :
    handle digits system 2 (some 2) [] (received upload_message ∷ received [] ∷ []) [] [] ≡ record {
      ended = some finished;
      failure = none;
      files = (codes "files/a", truncated 2 (1 ∷ 2 ∷ 3 ∷ [])) ∷ [];
      filelog = log_entry (header sent (1 ∷ 2 ∷ 3 ∷ [])) [];
    }
handle-truncated_example =
    handle-truncated sent (1 ∷ 2 ∷ 3 ∷ []) system 2 (some 2) []
      (received upload_message ∷ received [] ∷ []) [] [] refl
      (received upload_message ∷ [], [], refl, refl, (omega arith, tt)) refl refl refl refl
      (omega arith)
