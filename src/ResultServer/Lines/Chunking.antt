-- ===== src/ResultServer/Lines/Chunking.antt =====
-- `read_newline` of lib/cuckoo/core/resultserver.py on a stream that arrives in chunks of any size.
use capev.Base.{
  ◌≢◌, ℕ, ◌+◌, ◌-◌, ◌≤◌, ◌<◌, ◌≡◌, refl, ap, sym, ◌∙◌, false, none, some, List, [], ◌∷◌, ◌++◌,
  length, take, drop, leb, All, arith, Bool-cases, Option-cases, inl, inr, append_assoc,
  append_empty, take-append, drop-append, length-append, length-take, length-drop, subst,
  take_exact, drop_past,
}
use capev.ResultServer.Lines.{
  Recv, received, timeout, bad_descriptor, connection_reset, other_socket_error, other_exception,
  Line, line, Lined, find, split_buffer, read_newline,
}

-- The bytes that are still to be received.
abbrev pub payload : List Recv → List ℕ
payload [] = []
payload (received xs ∷ rs) = xs ++ payload rs
payload (r ∷ rs) = payload rs

-- A chunk of data.
abbrev pub IsChunk : Recv → Type 0
IsChunk (received xs) = 0 < length xs
IsChunk r = ⊥

find-bound : (c : ℕ) (xs : List ℕ) (p : ℕ) → find c xs ≡ some p → p < length xs
find-bound c [] p e = absurd (ground arith)
find-bound c (x ∷ xs) p e = ground (arith, Option-cases (find c xs), find-bound c xs (p - 1))

find-append : (c : ℕ) (xs ys : List ℕ) (p : ℕ) → find c xs ≡ some p → find c (xs ++ ys) ≡ some p
find-append c [] ys p e = absurd (ground arith)
find-append c (x ∷ xs) ys p e =
    ground (arith, Option-cases (find c xs), find-append c xs ys (p - 1))

find-append_none :
    (c : ℕ) (xs ys : List ℕ) (p : ℕ) → find c xs ≡ none → find c (xs ++ ys) ≡ some p → length xs ≤ p
find-append_none c [] ys p h e = omega arith
find-append_none c (x ∷ xs) ys p h e = ground (
  arith,
  Option-cases (find c xs),
  Option-cases (find c (xs ++ ys)),
  find-append_none c xs ys (p - 1),
)

-- No call of `recv(16384)` returns more.
abbrev pub IsFit : Recv → Type 0
IsFit (received xs) = length xs ≤ 16384
IsFit r = Unit

-- What a line that ends at `p` of the whole stream should give.
pub record Splits (stream : List ℕ) (p : ℕ) (r : Lined) : Type 0 where
  pub outcome : r.outcome ≡ line (take p stream)
  pub left : r.buf ++ payload r.rest ≡ drop (p + 1) stream

found-Splits :
    (buf : List ℕ) (rs : List Recv) (p i : ℕ)
    → find 10 (buf ++ payload rs) ≡ some p
    → find 10 buf ≡ some i
    → Splits
        (buf ++ payload rs)
        p
        (record { outcome = line (take i buf); buf = drop (i + 1) buf; rest = rs })
found-Splits buf rs p i e q =
    let same : i ≡ p = ground (arith, find-append 10 buf (payload rs) i) in
    let inside = find-bound 10 buf i q in
    record {
      outcome = ap line (
          sym (take-append i buf (payload rs) (omega arith))
          ∙ ap (λ n. take n (buf ++ payload rs)) same);
      left =
          sym (drop-append (i + 1) buf (payload rs) (omega arith))
          ∙ ap (λ n. drop (n + 1) (buf ++ payload rs)) same;
    }

split-Splits :
    (buf : List ℕ) (rs : List Recv) (more : Lined) (p : ℕ)
    → find 10 (buf ++ payload rs) ≡ some p
    → p < 4096
    → (find 10 buf ≡ none → Splits (buf ++ payload rs) p more)
    → Splits (buf ++ payload rs) p (split_buffer buf rs more)
unfolding split_buffer
split-Splits buf rs more p e h k = elim (Option-cases (find 10 buf)) [
  | inl q ↦
      let below = find-append_none 10 buf (payload rs) p q e in
      let short : leb 4096 (length buf) ≡ false = ground arith in
      rw (q, split_buffer) (rw short (k q))
  | inr (i, q) ↦ rw (q, split_buffer) (found-Splits buf rs p i e q)
]

-- If everything that arrives is data and the first newline of the buffer and the stream is within
-- the limit of a line, read_newline returns what comes before it and leaves what comes after it,
-- for all ways in which the stream is cut into chunks.
pub read_newline-Splits :
    (rs : List Recv) (buf : List ℕ) (p : ℕ)
    → All IsChunk rs
    → find 10 (buf ++ payload rs) ≡ some p
    → p < 4096
    → Splits (buf ++ payload rs) p (read_newline rs buf)
unfolding read_newline
read_newline-Splits [] buf p c e h =
    split-Splits buf [] _ p e h (λ q. absurd (ground (arith, append_empty buf)))
read_newline-Splits (received [] ∷ rs) buf p c e h = absurd (omega (arith, c.0))
read_newline-Splits (received (x ∷ xs) ∷ rs) buf p c e h =
    let assoc = append_assoc buf (x ∷ xs) (payload rs) in
    split-Splits buf (received (x ∷ xs) ∷ rs) _ p e h (λ q.
      subst (λ l. Splits l p (read_newline rs (buf ++ (x ∷ xs)))) assoc
        (read_newline-Splits rs (buf ++ (x ∷ xs)) p c.1 (rw assoc e) h))
read_newline-Splits (timeout ∷ rs) buf p c e h = absurd c.0
read_newline-Splits (bad_descriptor ∷ rs) buf p c e h = absurd c.0
read_newline-Splits (connection_reset ∷ rs) buf p c e h = absurd c.0
read_newline-Splits (other_socket_error ∷ rs) buf p c e h = absurd c.0
read_newline-Splits (other_exception ∷ rs) buf p c e h = absurd c.0

-- No more than the limit for a line and one chunk: what is kept, and what is returned.
abbrev ShortLine : Line → Type 0
ShortLine (line xs) = length xs < 4096 + 16384
ShortLine l = Unit

abbrev pub IsShort : Lined → Type 0
IsShort r = (length r.buf < 4096 + 16384) × ShortLine r.outcome

split-IsShort :
    (buf : List ℕ) (rs : List Recv) (more : Lined)
    → length buf < 4096 + 16384
    → (length buf < 4096 → IsShort more)
    → IsShort (split_buffer buf rs more)
unfolding split_buffer
split-IsShort buf rs more h k = elim (Option-cases (find 10 buf)) [
  | inl q ↦
      rw (q, split_buffer)
        (elim (Bool-cases (leb 4096 (length buf))) [
          | inl b ↦ rw b (h, tt)
          | inr b ↦ rw b (k (ground arith))
        ])
  | inr (i, q) ↦
      rw (q, split_buffer)
        (omega (arith, length-drop (i + 1) buf), omega (arith, length-take i buf))
]

-- If no chunk has more than 16384 bytes and the buffer has fewer than 4096 more than that, the
-- buffer that read_newline leaves and the line that it returns have fewer than 4096 and 16384
-- bytes together.
read_newline-IsShort :
    (rs : List Recv) (buf : List ℕ)
    → All IsFit rs
    → length buf < 4096 + 16384
    → IsShort (read_newline rs buf)
unfolding read_newline
read_newline-IsShort [] buf c h = split-IsShort buf [] _ h (λ b. (h, tt))
read_newline-IsShort (received [] ∷ rs) buf c h = split-IsShort buf _ _ h (λ b. (h, tt))
read_newline-IsShort (received (x ∷ xs) ∷ rs) buf c h = split-IsShort buf _ _ h (λ b.
    read_newline-IsShort rs (buf ++ (x ∷ xs)) c.1 (omega (arith, c.0, length-append buf (x ∷ xs))))
read_newline-IsShort (timeout ∷ rs) buf c h = split-IsShort buf _ _ h (λ b. (h, tt))
read_newline-IsShort (bad_descriptor ∷ rs) buf c h = split-IsShort buf _ _ h (λ b. (h, tt))
read_newline-IsShort (connection_reset ∷ rs) buf c h = split-IsShort buf _ _ h (λ b. (h, tt))
read_newline-IsShort (other_socket_error ∷ rs) buf c h = split-IsShort buf _ _ h (λ b. (h, tt))
read_newline-IsShort (other_exception ∷ rs) buf c h = split-IsShort buf _ _ h (λ b. (h, tt))

split-rest :
    (P : Recv → Type 0) (buf : List ℕ) (rs : List Recv) (more : Lined)
    → All P rs
    → All P more.rest
    → All P (split_buffer buf rs more).rest
unfolding split_buffer
split-rest P buf rs more h k = elim (Option-cases (find 10 buf)) [
  | inl q ↦
      rw (q, split_buffer)
        (elim (Bool-cases (leb 4096 (length buf))) [ inl b ↦ rw b h | inr b ↦ rw b k ])
  | inr (i, q) ↦ rw (q, split_buffer) h
]

read_newline-rest :
    (P : Recv → Type 0) (rs : List Recv) (buf : List ℕ)
    → All P rs
    → All P (read_newline rs buf).rest
unfolding read_newline
read_newline-rest P [] buf h = split-rest P buf [] _ tt tt
read_newline-rest P (received [] ∷ rs) buf h = split-rest P buf _ _ h h.1
read_newline-rest P (received (x ∷ xs) ∷ rs) buf h =
    split-rest P buf _ _ h (read_newline-rest P rs (buf ++ (x ∷ xs)) h.1)
read_newline-rest P (timeout ∷ rs) buf h = split-rest P buf _ _ h h.1
read_newline-rest P (bad_descriptor ∷ rs) buf h = split-rest P buf _ _ h h.1
read_newline-rest P (connection_reset ∷ rs) buf h = split-rest P buf _ _ h h.1
read_newline-rest P (other_socket_error ∷ rs) buf h = split-rest P buf _ _ h h.1
read_newline-rest P (other_exception ∷ rs) buf h = split-rest P buf _ _ h h.1

-- A line of a stream: no newline, and shorter than the limit.
abbrev pub IsLine : List ℕ → Type 0
IsLine l = All (λ c. c ≢ 10) l × (length l < 4096)

find-line : (l rest : List ℕ) → All (λ c. c ≢ 10) l → find 10 (l ++ (10 ∷ rest)) ≡ some (length l)
find-line [] rest h = refl
find-line (c ∷ cs) rest h = ground (arith, find-line cs rest h.1, h.0)

-- The first line of a stream that starts with one, for all its chunkings.
pub read_newline-first :
    (rs : List Recv) (buf l rest : List ℕ)
    → All IsChunk rs
    → IsLine l
    → buf ++ payload rs ≡ l ++ (10 ∷ rest)
    → ((read_newline rs buf).outcome ≡ line l)
      × ((read_newline rs buf).buf ++ payload (read_newline rs buf).rest ≡ rest)
      × All IsChunk (read_newline rs buf).rest
read_newline-first rs buf l rest c h e =
    let s = read_newline-Splits rs buf (length l) c (rw e (find-line l rest h.0)) h.1 in
    (
      s.outcome ∙ ap (λ x. line (take (length l) x)) e ∙ ap line (take_exact l (10 ∷ rest)),
      s.left ∙ ap (drop (length l + 1)) e ∙ drop_past l 1 (10 ∷ rest),
      read_newline-rest IsChunk rs buf c,
    )

-- What comes behind the results that are used changes nothing but what is left.
abbrev followed : List Recv → Lined → Lined
followed more r = record r { rest = r.rest ++ more }

split-followed :
    (buf l : List ℕ) (rs more : List Recv) (short long : Lined)
    → (split_buffer buf rs short).outcome ≡ line l
    → (short.outcome ≡ line l → long ≡ followed more short)
    → split_buffer buf (rs ++ more) long ≡ followed more (split_buffer buf rs short)
unfolding split_buffer
split-followed buf l rs more short long e h = elim (Option-cases (find 10 buf)) [
  | inr (i, q) ↦ rw (q, split_buffer) refl
  | inl q ↦ elim (Bool-cases (leb 4096 (length buf))) [
    | inl b ↦ absurd (ground (arith, e, q, b))
    | inr b ↦ rw (q, b, split_buffer) (h (rw (q, b, split_buffer) at e))
  ]
]

read_newline-followed :
    (rs more : List Recv) (buf l : List ℕ)
    → All IsChunk rs
    → (read_newline rs buf).outcome ≡ line l
    → read_newline (rs ++ more) buf ≡ followed more (read_newline rs buf)
unfolding read_newline
read_newline-followed [] [] buf l c e =
    split-followed buf l [] [] _ _ e (λ w. absurd (ground (arith, w)))
read_newline-followed [] (r ∷ more) buf l c e =
    split-followed buf l [] (r ∷ more) _ _ e (λ w. absurd (ground (arith, w)))
read_newline-followed (received [] ∷ rs) more buf l c e = absurd (omega (arith, c.0))
read_newline-followed (received (x ∷ xs) ∷ rs) more buf l c e =
    split-followed buf l (received (x ∷ xs) ∷ rs) more _ _ e
      (read_newline-followed rs more (buf ++ (x ∷ xs)) l c.1)
read_newline-followed (timeout ∷ rs) more buf l c e = absurd c.0
read_newline-followed (bad_descriptor ∷ rs) more buf l c e = absurd c.0
read_newline-followed (connection_reset ∷ rs) more buf l c e = absurd c.0
read_newline-followed (other_socket_error ∷ rs) more buf l c e = absurd c.0
read_newline-followed (other_exception ∷ rs) more buf l c e = absurd c.0

-- The first line of chunks that something else follows.
pub read_newline-first_of :
    (rs more : List Recv) (buf l rest : List ℕ)
    → All IsChunk rs
    → IsLine l
    → buf ++ payload rs ≡ l ++ (10 ∷ rest)
    → (buf' : List ℕ) × (rs' : List Recv) × (read_newline (rs ++ more) buf
        ≡ record { outcome = line l; buf = buf'; rest = rs' ++ more })
      × (buf' ++ payload rs' ≡ rest)
      × All IsChunk rs'
read_newline-first_of rs more buf l rest c h e =
    let (found, left, c') = read_newline-first rs buf l rest c h e in
    let r = read_newline rs buf in
    (
      r.buf,
      r.rest,
      read_newline-followed rs more buf l c found
          ∙ ap (λ o. record { outcome = o; buf = r.buf; rest = r.rest ++ more }) found,
      left,
      c',
    )
