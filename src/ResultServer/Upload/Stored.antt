-- ===== src/ResultServer/Upload/Stored.antt =====
-- An upload from its first byte to the stored file (`FileUpload.handle` of
-- lib/cuckoo/core/resultserver.py), for all ways in which its bytes arrive.
use capev.Base.{
  ℕ, ◌<◌, ◌≡◌, refl, ap, ◌∙◌, true, false, not, Option, none, some, List, [], ◌∷◌, ◌++◌, All, arith,
}
use capev.ResultServer.Lines.{
  Recv, received, timeout, bad_descriptor, connection_reset, other_socket_error, other_exception,
  read_newline,
}
use capev.ResultServer.Lines.Chunking.{payload, IsChunk, IsLine, read_newline-first_of}
use capev.ResultServer.Limiter.{
  finished, Sink, contents, write_to, open_sink, copy_loop, copy_to_fd,
}
use capev.ResultServer.Limiter.Truncation.{upload, truncated, copy_to_fd-truncated}
use capev.ResultServer.Names.{netlog_sanitize_fname}
use capev.ResultServer.Protocol.{Ints, words}
use capev.ResultServer.Upload.{
  line_of, parsed, Reading, read_line, Header, Files, Entry, all_ints, is_second, read_metadata,
  read_header, log_entry, System, store, handle,
}

-- What is read next, cut into any chunks; then the client has ended the connection.
abbrev pub Unread : List ℕ → List ℕ → List Recv → Type 0
Unread stream buf rs =
    (cs : List Recv) × (later : List Recv) × (rs ≡ cs ++ (received [] ∷ later))
    × (buf ++ payload cs ≡ stream)
    × All IsChunk cs

-- Reading gives the value and leaves the rest of the stream, for all its chunkings.
abbrev Reads : {A : Type 0} → Reading A → List ℕ → A → List ℕ → Type 0
Reads m stream a rest =
    (buf : List ℕ) (rs : List Recv)
    → Unread stream buf rs
    → (buf' : List ℕ) × (rs' : List Recv) × (m buf rs ≡ parsed a buf' rs') × Unread rest buf' rs'

Reads-line : (l rest : List ℕ) → IsLine l → Reads read_line (l ++ (10 ∷ rest)) l rest
unfolding read_line
Reads-line l rest h buf rs (cs, later, e, stream, c) =
    let eof = received [] ∷ later in
    let (buf', cs', q, left, c') = read_newline-first_of cs eof buf l rest c h stream in
    (
      buf',
      cs' ++ eof,
      ap line_of (ap (λ r. read_newline r buf) e ∙ q),
      (cs', later, refl, left, c'),
    )

-- The upload is what the chunks hold.
upload-payload :
    (cs later : List Recv) → All IsChunk cs → upload (cs ++ (received [] ∷ later)) ≡ payload cs
upload-payload [] later c = refl
upload-payload (received [] ∷ cs) later c = absurd (omega (arith, c.0))
upload-payload (received (x ∷ xs) ∷ cs) later c = ap (◌++◌ (x ∷ xs)) (upload-payload cs later c.1)
upload-payload (timeout ∷ cs) later c = absurd c.0
upload-payload (bad_descriptor ∷ cs) later c = absurd c.0
upload-payload (connection_reset ∷ cs) later c = absurd c.0
upload-payload (other_socket_error ∷ cs) later c = absurd c.0
upload-payload (other_exception ∷ cs) later c = absurd c.0

-- The copying ends at the end of the connection.
copy_loop-finished :
    (cs later : List Recv) (fd : Sink)
    → All IsChunk cs
    → (copy_loop (cs ++ (received [] ∷ later)) fd).0 ≡ finished
unfolding copy_loop
copy_loop-finished [] later fd c = refl
copy_loop-finished (received [] ∷ cs) later fd c = absurd (omega (arith, c.0))
copy_loop-finished (received (x ∷ xs) ∷ cs) later fd c =
    copy_loop-finished cs later (write_to (x ∷ xs) fd) c.1
copy_loop-finished (timeout ∷ cs) later fd c = absurd c.0
copy_loop-finished (bad_descriptor ∷ cs) later fd c = absurd c.0
copy_loop-finished (connection_reset ∷ cs) later fd c = absurd c.0
copy_loop-finished (other_socket_error ∷ cs) later fd c = absurd c.0
copy_loop-finished (other_exception ∷ cs) later fd c = absurd c.0

copied :
    (stream buf : List ℕ) (rs : List Recv) (max_size : ℕ)
    → Unread stream buf rs
    → 0 < max_size
    → ((copy_to_fd rs buf max_size []).0 ≡ finished)
      × (contents (copy_to_fd rs buf max_size []).1 ≡ truncated max_size stream)
unfolding copy_to_fd
copied stream buf rs max_size (cs, later, e, all, c) pos = (
  ap (λ r. (copy_loop r (write_to buf (open_sink max_size []))).0) e
      ∙ copy_loop-finished cs later (write_to buf (open_sink max_size [])) c,
  copy_to_fd-truncated rs buf [] max_size pos
      ∙ ap (λ r. truncated max_size (buf ++ upload r)) e
      ∙ ap (λ l. truncated max_size (buf ++ l)) (upload-payload cs later c)
      ∙ ap (truncated max_size) all,
)

-- The lines that a client of version 2 sends, with what they mean.
pub record Sent {V : Type 0} (i : Ints V) : Type 0 where
  pub raw : List ℕ
  pub filepath : List ℕ
  pub pids_line : List ℕ
  pub ppids_line : List ℕ
  pub metadata : List ℕ
  pub category : List ℕ
  pub duplicated_line : List ℕ
  pub path : List ℕ
  pub pids : List V
  pub ppids : List V
  pub duplicated : V
  pub lines :
      All IsLine
        (raw ∷ filepath ∷ pids_line ∷ ppids_line ∷ metadata ∷ category ∷ duplicated_line ∷ [])
  pub is_path : netlog_sanitize_fname raw ≡ some path
  pub is_pids : all_ints i (words [] pids_line) ≡ some pids
  pub is_ppids : all_ints i (words [] ppids_line) ≡ some ppids
  pub is_duplicated : i.int duplicated_line ≡ some duplicated

module _ {V : Type 0} {i : Ints V} (m : Sent i) (body : List ℕ) where
  -- The bytes after the path.
  abbrev fields : List ℕ
  fields =
      m.filepath
      ++ (10
          ∷ (m.pids_line
              ++ (10
                  ∷ (m.ppids_line
                      ++ (10
                          ∷ (m.metadata
                              ++ (10
                                  ∷ (m.category ++ (10 ∷ (m.duplicated_line ++ (10 ∷ body)))))))))))

  abbrev pub message : List ℕ
  message = m.raw ++ (10 ∷ fields)

  abbrev pub header : Header V
  header = record {
    path = m.path;
    filepath = some m.filepath;
    pids = m.pids;
    ppids = m.ppids;
    metadata = m.metadata;
    category = m.category;
    duplicated = not (i.is_zero m.duplicated);
  }

  read_metadata-Reads : Reads (read_metadata i m.path) fields header body
  unfolding read_metadata
  read_metadata-Reads buf rs un =
      let ls = m.lines in
      let (buf1, rs1, e1, un1) = Reads-line m.filepath _ ls.1.0 buf rs un in
      let (buf2, rs2, e2, un2) = Reads-line m.pids_line _ ls.1.1.0 buf1 rs1 un1 in
      let (buf3, rs3, e3, un3) = Reads-line m.ppids_line _ ls.1.1.1.0 buf2 rs2 un2 in
      let (buf4, rs4, e4, un4) = Reads-line m.metadata _ ls.1.1.1.1.0 buf3 rs3 un3 in
      let (buf5, rs5, e5, un5) = Reads-line m.category _ ls.1.1.1.1.1.0 buf4 rs4 un4 in
      let (buf6, rs6, e6, un6) = Reads-line m.duplicated_line body ls.1.1.1.1.1.1.0 buf5 rs5 un5 in
      (buf6, rs6, rw (e1, e2, m.is_pids, e3, m.is_ppids, e4, e5, e6, m.is_duplicated) refl, un6)

  read_header-Reads :
      (version : Option V)
      → is_second i version ≡ true
      → Reads (read_header i version) message header body
  unfolding read_header
  read_header-Reads version e buf rs un =
      let (buf1, rs1, e1, un1) = Reads-line m.raw fields m.lines.0 buf rs un in
      let (buf2, rs2, e2, un2) = read_metadata-Reads buf1 rs1 un1 in
      (buf2, rs2, rw (e1, m.is_path, e) e2, un2)

  -- If the connection brings data, however it is cut into chunks, and then its end, the lines of a
  -- version 2 upload can be read, its path is accepted, it is no duplicate, the file is not there
  -- and can be made, and the limit is positive, then handle finishes without an error and leaves
  -- exactly the new file with the bytes after the header, truncated at the limit, and the log entry
  -- of the header.
  pub handle-truncated :
      (sys : System) (max_size : ℕ) (version : Option V) (buf : List ℕ) (rs : List Recv)
      (files : Files) (filelog : List (Entry V))
      → is_second i version ≡ true
      → Unread message buf rs
      → i.is_zero m.duplicated ≡ true
      → sys.decodes m.path ≡ true
      → sys.opens m.path ≡ true
      → sys.exists m.path files ≡ false
      → 0 < max_size
      → handle i sys max_size version buf rs files filelog ≡ record {
        ended = some finished;
        failure = none;
        files = (m.path, truncated max_size body) ∷ files;
        filelog = log_entry header filelog;
      }
  unfolding handle store
  handle-truncated sys max_size version buf rs files filelog e un d1 d2 d3 d4 pos =
      let (buf1, rs1, e1, un1) = read_header-Reads version e buf rs un in
      let (ends, bytes) = copied body buf1 rs1 max_size un1 pos in
      rw (e1, d1, d2, d3, d4, ends, bytes) refl
