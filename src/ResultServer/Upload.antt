-- ===== src/ResultServer/Upload.antt =====
-- `FileUpload.handle` of lib/cuckoo/core/resultserver.py: the header of an upload, line by line, and
-- the file that it leaves.
pub mod Stored
use capev.Base.{
  ℕ, ◌==◌, Bool, true, false, not, ◌&&◌, ◌||◌, Option, none, some, List, [], ◌∷◌, ◌++◌, any, keep,
  take, length, if◌then◌else◌,
}
use capev.Base.Bytes.{codes, same_bytes}
use capev.ResultServer.Lines.{
  Recv, Line, Lined, line, too_long, end_of_file, read_error, type_error, waiting, read_newline,
}
use capev.ResultServer.Limiter.{Sink, Ended, contents, copy_to_fd}
use capev.ResultServer.Names.{netlog_sanitize_fname}
use capev.ResultServer.Protocol.{Ints, words}

-- Why a handler stops: how a line ends that is none, or an exception of its own.
pub data Failure : Type 0 where
  no_line : Line → Failure
  banned_path value_error unicode_error os_error attribute_error : Failure

-- What is read from the connection, with the buffer and the results of `recv` that are left.
pub data Parsed (A : Type 0) : Type 0 where
  parsed : A → List ℕ → List Recv → Parsed A
  failed : Failure → Parsed A

abbrev pub Reading : Type 0 → Type 0
Reading A = List ℕ → List Recv → Parsed A

module _ {A : Type 0} where
  abbrev pub pure : A → Reading A
  pure a buf rs = parsed a buf rs

  -- A step that raises the given exception where it has no result.
  abbrev pub or_raise : Failure → Option A → Reading A
  or_raise e none buf rs = failed e
  or_raise e (some a) buf rs = parsed a buf rs

module _ {A B : Type 0} where
  abbrev pub continue : Parsed A → (A → Reading B) → Parsed B
  continue (parsed a buf rs) f = f a buf rs
  continue (failed e) f = failed e

  infixl 5 ◌>>=◌
  abbrev pub ◌>>=◌ : Reading A → (A → Reading B) → Reading B
  ◌>>=◌ m f buf rs = continue (m buf rs) f

abbrev pub line_of : Lined → Parsed (List ℕ)
line_of r = elim r.outcome [ line l ↦ parsed l r.buf r.rest | other ↦ failed (no_line other) ]

unfoldable pub read_line : Reading (List ℕ)
read_line buf rs = line_of (read_newline rs buf)

pub record Header (V : Type 0) : Type 0 where
  pub path : List ℕ
  pub filepath : Option (List ℕ)
  pub pids : List V
  pub ppids : List V
  pub metadata : List ℕ
  pub category : List ℕ
  pub duplicated : Bool

-- `result.path` and its contents, of the files below the analysis folder.
abbrev pub Files : Type 0
Files = List (List ℕ × List ℕ)

-- An entry of files.json.
pub record Entry (V : Type 0) : Type 0 where
  pub path : List ℕ
  pub filepath : Option (List ℕ)
  pub pids : List V
  pub ppids : List V
  pub metadata : List ℕ
  pub category : List ℕ

-- `path.startswith(prefix)`
abbrev pub starts_with : List ℕ → List ℕ → Bool
starts_with path prefix = same_bytes (take (length prefix) path) prefix

abbrev pub is_unlisted : List ℕ → Bool
is_unlisted path = any (starts_with path) (
    codes "shots/"
    ∷ codes "curtain/"
    ∷ codes "aux/"
    ∷ codes "sysmon/"
    ∷ codes "debugger/"
    ∷ codes "tlsdump/"
    ∷ codes "evtx"
    ∷ [])

abbrev pub listed_category : List ℕ → List ℕ
listed_category c =
    if any (same_bytes c) (codes "CAPE" ∷ codes "files" ∷ codes "memory" ∷ codes "procdump" ∷ [])
    then c
    else []

-- What the handler leaves, with how its copying ended, or why it stopped.
pub record Left (V : Type 0) : Type 0 where
  pub ended : Option Ended
  pub failure : Option Failure
  pub files : Files
  pub filelog : List (Entry V)

module _ {V : Type 0} (i : Ints V) where
  -- `list(map(int, ...))`
  abbrev pub all_ints : List (List ℕ) → Option (List V)
  all_ints [] = some []
  all_ints (w ∷ ws) = elim (i.int w) [
    | none ↦ none
    | some v ↦ elim (all_ints ws) [ none ↦ none | some vs ↦ some (v ∷ vs) ]
  ]

  abbrev pub is_second : Option V → Bool
  is_second none = false
  is_second (some v) = i.is_two_or_more v

  -- The lines that a client of version 2 sends after the path.
  unfoldable pub read_metadata : List ℕ → Reading (Header V)
  unfolding words
  read_metadata path = do
    filepath ← read_line
    pids_line ← read_line
    pids ← or_raise value_error (all_ints (words [] pids_line))
    ppids_line ← read_line
    ppids ← or_raise value_error (all_ints (words [] ppids_line))
    metadata ← read_line
    category ← read_line
    duplicated_line ← read_line
    duplicated ← or_raise value_error (i.int duplicated_line)
    pure (record {
      path = path;
      filepath = some filepath;
      pids = pids;
      ppids = ppids;
      metadata = metadata;
      category = category;
      duplicated = not (i.is_zero duplicated);
    })

  -- The header, up to the log message.
  unfoldable pub read_header : Option V → Reading (Header V)
  read_header version = do
    raw ← read_line
    path ← or_raise banned_path (netlog_sanitize_fname raw)
    if is_second version
        then read_metadata path
        else pure (record {
          path = path;
          filepath = none;
          pids = [];
          ppids = [];
          metadata = [];
          category = [];
          duplicated = false;
        })

-- `json.dumps` and `print` to files.json, for the directories that are listed there.
abbrev pub log_entry : {V : Type 0} → Header V → List (Entry V) → List (Entry V)
log_entry h filelog =
    if is_unlisted h.path
    then filelog
    else filelog
      ++ (record {
        path = h.path;
        filepath = h.filepath;
        pids = h.pids;
        ppids = h.ppids;
        metadata = h.metadata;
        category = listed_category h.category;
      }
          ∷ [])

-- The last part: the data is copied to the new file. Without one, `copy_to_fd` or `tell` raises.
abbrev pub receive :
    {V : Type 0} → ℕ → Bool → Header V → List ℕ → List Recv → Files → List (Entry V) → Left V
receive max_size is_open h buf rs files filelog =
    let copied = copy_to_fd rs buf max_size [] in
    if h.duplicated
    then record { ended = none; failure = none; files = files; filelog = filelog }
    else if is_open
    then record {
      ended = some copied.0;
      failure = none;
      files = (h.path, contents copied.1) ∷ files;
      filelog = filelog;
    }
    else record { ended = none; failure = some attribute_error; files = files; filelog = filelog }

abbrev pub stopped : {V : Type 0} → Failure → Files → List (Entry V) → Left V
stopped e files filelog = record {
  ended = none;
  failure = some e;
  files = files;
  filelog = filelog;
}

-- What the handler asks of the system: whether a path is UTF-8, `os.path.exists` of a path among the
-- files that were made, and whether a file that is not there can be made.
pub record System : Type 0 where
  pub decodes : List ℕ → Bool
  pub exists : List ℕ → Files → Bool
  pub opens : List ℕ → Bool

unfoldable pub store :
    {V : Type 0} → System → ℕ → Header V → List ℕ → List Recv → Files → List (Entry V) → Left V
store sys max_size h buf rs files filelog =
    if h.duplicated
    then receive max_size false h buf rs files (log_entry h filelog)
    else if not (sys.decodes h.path)
    then stopped unicode_error files filelog
    else if sys.exists h.path files
    then receive max_size false h buf rs files (log_entry h filelog)
    else if sys.opens h.path
    then receive max_size true h buf rs files (log_entry h filelog)
    else stopped os_error files filelog

abbrev pub then_store :
    {V : Type 0} → System → ℕ → Files → List (Entry V) → Parsed (Header V) → Left V
then_store sys max_size files filelog (failed e) = stopped e files filelog
then_store sys max_size files filelog (parsed h buf rs) = store sys max_size h buf rs files filelog

unfoldable pub handle :
    {V : Type 0}
    → Ints V
    → System
    → ℕ
    → Option V
    → List ℕ
    → List Recv
    → Files
    → List (Entry V)
    → Left V
handle i sys max_size version buf rs files filelog =
    then_store sys max_size files filelog (read_header i version buf rs)
