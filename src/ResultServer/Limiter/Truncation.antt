-- ===== src/ResultServer/Limiter/Truncation.antt =====
-- The file that an upload leaves, for all ways in which the data arrives
-- (`WriteLimiter` and `copy_to_fd` of lib/cuckoo/core/resultserver.py).
use native.Mathlib.Decide.{dec_lt}
use capev.Base.{
  ℕ, zero, suc, ◌+◌, ◌-◌, ◌≤◌, ◌<◌, ◌≡◌, refl, ap, sym, ◌∙◌, List, [], ◌∷◌, ◌++◌, length, take,
  if◌then◌else◌, min, leb, ltb, arith, append_assoc, append_empty, take-append, length-append,
}
use capev.ResultServer.Lines.{
  Recv, received, timeout, bad_descriptor, connection_reset, other_socket_error, other_exception,
}
use capev.ResultServer.Limiter.{
  marker, Limiter, write, limited, contents, open_sink, copy_loop, copy_to_fd,
}

-- The bytes of an upload: those up to the first result of `recv` that is no data.
abbrev pub upload : List Recv → List ℕ
upload [] = []
upload (received [] ∷ rs) = []
upload (received (x ∷ xs) ∷ rs) = (x ∷ xs) ++ upload rs
upload (r ∷ rs) = []

-- All bytes if they fit, else as many as fit and a marker.
abbrev pub truncated : ℕ → List ℕ → List ℕ
truncated n xs = if leb (length xs) n then xs else take n xs ++ marker

-- The limiter after the bytes `xs`.
abbrev after : ℕ → List ℕ → List ℕ → Limiter
after n file xs = record {
  fd = file ++ truncated n xs;
  remain = n - length xs;
  warned = ltb n (length xs);
}

take-append_over :
    (n : ℕ) (xs ys : List ℕ) → length xs ≤ n → take n (xs ++ ys) ≡ xs ++ take (n - length xs) ys
take-append_over n [] ys h = ap (λ k. take k ys) (omega arith)
take-append_over zero (x ∷ xs) ys h = absurd (omega arith)
take-append_over (suc n) (x ∷ xs) ys h =
    let same : suc n - suc (length xs) ≡ n - length xs = omega arith in
    ap (◌∷◌ x) (take-append_over n xs ys (omega arith)) ∙ ap (λ k. x ∷ (xs ++ take k ys)) (sym same)

take_all : (n : ℕ) (xs : List ℕ) → length xs ≤ n → take n xs ≡ xs
take_all zero [] h = refl
take_all zero (x ∷ xs) h = absurd (omega arith)
take_all (suc n) [] h = refl
take_all (suc n) (x ∷ xs) h = ap (◌∷◌ x) (take_all n xs (omega arith))

-- The bytes still fit.
write-after_fits :
    (n : ℕ) (file xs ys : List ℕ)
    → 0 < length ys
    → length xs + length ys ≤ n
    → write ys (after n file xs) ≡ after n file (xs ++ ys)
unfolding write
write-after_fits n file xs ys p h = ground (
  arith,
  length-append xs ys,
  take_all (min (length ys) (n - length xs)) ys,
  append_assoc file xs ys,
)

-- The limit is passed now.
write-after_passes :
    (n : ℕ) (file xs ys : List ℕ)
    → length xs ≤ n
    → n < length xs + length ys
    → write ys (after n file xs) ≡ after n file (xs ++ ys)
unfolding write
write-after_passes n file xs ys h k =
    let least : min (length ys) (n - length xs) ≡ n - length xs = omega arith in
    ground (
      arith,
      least,
      length-append xs ys,
      take-append_over n xs ys,
      take_all n xs,
      append_empty xs,
      append_assoc file xs (take (n - length xs) ys),
      append_assoc file xs marker,
      append_assoc file (xs ++ take (n - length xs) ys) marker,
    )

-- The limit was passed before.
write-after_passed :
    (n : ℕ) (file xs ys : List ℕ)
    → n < length xs
    → write ys (after n file xs) ≡ after n file (xs ++ ys)
unfolding write
write-after_passed n file xs ys h = ground (arith, length-append xs ys, take-append n xs ys)

write_empty : (w : Limiter) → write [] w ≡ w
unfolding write
write_empty w = ground arith

write-after : (n : ℕ) (file xs ys : List ℕ) → write ys (after n file xs) ≡ after n file (xs ++ ys)
write-after n file xs [] = rw (append_empty xs) (write_empty (after n file xs))
write-after n file xs (y ∷ ys) = elim (dec_lt n (length xs)) [
  | yes h ↦ write-after_passed n file xs (y ∷ ys) h
  | no h ↦ elim (dec_lt n (length xs + length (y ∷ ys))) [
    | yes k ↦ write-after_passes n file xs (y ∷ ys) (omega arith) k
    | no k ↦ write-after_fits n file xs (y ∷ ys) (omega arith) (omega arith)
  ]
]

copy_loop-after :
    (rs : List Recv) (n : ℕ) (file xs : List ℕ)
    → (copy_loop rs (limited (after n file xs))).1 ≡ limited (after n file (xs ++ upload rs))
unfolding copy_loop
copy_loop-after [] n file xs = rw (append_empty xs) refl
copy_loop-after (received [] ∷ rs) n file xs = rw (append_empty xs) refl
copy_loop-after (received (x ∷ ys) ∷ rs) n file xs = rw (write-after n file xs (x ∷ ys)) (
    copy_loop-after rs n file (xs ++ (x ∷ ys))
    ∙ ap (λ l. limited (after n file l)) (append_assoc xs (x ∷ ys) (upload rs)))
copy_loop-after (timeout ∷ rs) n file xs = rw (append_empty xs) refl
copy_loop-after (bad_descriptor ∷ rs) n file xs = rw (append_empty xs) refl
copy_loop-after (connection_reset ∷ rs) n file xs = rw (append_empty xs) refl
copy_loop-after (other_socket_error ∷ rs) n file xs = rw (append_empty xs) refl
copy_loop-after (other_exception ∷ rs) n file xs = rw (append_empty xs) refl

-- With a positive limit, copy_to_fd appends to the file the buffer and all data up to the first
-- result that is none, cut at the limit with one marker if there is more, for all chunks and all
-- ways in which the copying ends.
pub copy_to_fd-truncated :
    (rs : List Recv) (buf file : List ℕ) (n : ℕ)
    → 0 < n
    → contents (copy_to_fd rs buf n file).1 ≡ file ++ truncated n (buf ++ upload rs)
unfolding copy_to_fd
copy_to_fd-truncated rs buf file n h =
    let opened : open_sink n file ≡ limited (after n file []) = ground (arith, append_empty file) in
    rw (opened, write-after n file [] buf) (ap contents (copy_loop-after rs n file buf))
