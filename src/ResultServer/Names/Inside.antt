-- ===== src/ResultServer/Names/Inside.antt =====
-- Where the paths that `netlog_sanitize_fname` of lib/cuckoo/core/resultserver.py accepts lead.
use capev.Base.{
  not, ℕ, ◌==◌, ◌≡◌, refl, ap, sym, ◌∙◌, ◌≢◌, Bool, true, false, ◌&&◌, Option, none, some, List, [],
  ◌∷◌, ◌++◌, any, all, is_empty, if◌then◌else◌, All, In, inl, inr, arith, Bool-cases, subst,
  append_assoc,
}
use capev.Base.Bytes.{same_bytes-eq, same_bytes}
use capev.ResultServer.Names.{
  slashed, split_last, strip_slashes, directory, split_path, result_directories,
  netlog_sanitize_fname,
}

abbrev pub IsSlash : ℕ → Type 0
IsSlash c = c ≡ 47

abbrev pub IsNameChar : ℕ → Type 0
IsNameChar c = c ≢ 47

any-In : (xs : List ℕ) (ls : List (List ℕ)) → any (same_bytes xs) ls ≡ true → In xs ls
any-In xs [] e = absurd (ground arith)
any-In xs (l ∷ ls) e = elim (Bool-cases (same_bytes xs l)) [
  | inl q ↦ inl (same_bytes-eq xs l q)
  | inr q ↦ inr (any-In xs ls (ground arith))
]

all-In :
    (p : List ℕ → Bool) (xs : List ℕ) (ls : List (List ℕ))
    → all p ls ≡ true
    → In xs ls
    → p xs ≡ true
all-In p xs [] e i = absurd i
all-In p xs (l ∷ ls) e (inl q) = ground arith
all-In p xs (l ∷ ls) e (inr i) = all-In p xs ls (ground arith) i

-- A text without slashes, or one that is split after its last slash.
abbrev SplitsLast : List ℕ → Option (List ℕ × List ℕ) → Type 0
SplitsLast path none = All IsNameChar path
SplitsLast path (some p) =
    (h : List ℕ) × (p.0 ≡ h ++ (47 ∷ [])) × (path ≡ p.0 ++ p.1) × All IsNameChar p.1

split_last_lem : (path : List ℕ) → SplitsLast path (split_last path)
unfolding split_last
split_last_lem [] = tt
split_last_lem (c ∷ cs) = go (split_last cs) (split_last_lem cs)
  where
    go :
        (o : Option (List ℕ × List ℕ))
        → SplitsLast cs o
        → SplitsLast (c ∷ cs) (elim o [
          | some p ↦ some (c ∷ p.0, p.1)
          | none ↦ if c == 47 then some (c ∷ [], cs) else none
        ])
    go (some p) (h, e, q, a) = (c ∷ h, ap (◌∷◌ c) e, ap (◌∷◌ c) q, a)
    go none a = elim (Bool-cases (c == 47)) [
      | inl e ↦ rw e ([], ground arith, refl, a)
      | inr e ↦ rw e (ground arith, a)
    ]

strip_slashes_snoc : (h : List ℕ) → strip_slashes (h ++ (47 ∷ [])) ≡ strip_slashes h
unfolding strip_slashes
strip_slashes_snoc [] = refl
strip_slashes_snoc (c ∷ cs) = rw (strip_slashes_snoc cs) refl

empty_lem : (xs : List ℕ) → is_empty xs ≡ true → xs ≡ []
empty_lem [] e = refl
empty_lem (x ∷ xs) e = absurd (ground arith)

strip_slashes_lem : (xs : List ℕ) → (ss : List ℕ) × (xs ≡ strip_slashes xs ++ ss) × All IsSlash ss
unfolding strip_slashes
strip_slashes_lem [] = ([], refl, tt)
strip_slashes_lem (c ∷ cs) =
    let (ss, e, a) = strip_slashes_lem cs in
    elim (Bool-cases (is_empty (strip_slashes cs) && c == 47)) [
      | inl q ↦ rw q (
        c ∷ ss,
        ap (◌∷◌ c) (e ∙ ap (λ l. l ++ ss) (empty_lem (strip_slashes cs) (ground arith))),
        (ground arith, a),
      )
      | inr q ↦ rw q (ss, ap (◌∷◌ c) e, a)
    ]

-- The path is one of the directories, slashes, and a name.
pub record Inside (path : List ℕ) : Type 0 where
  pub dir : List ℕ
  pub slashes : List ℕ
  pub name : List ℕ
  pub listed : In dir result_directories
  pub parts : path ≡ dir ++ (slashes ++ (47 ∷ name))
  pub only_slashes : All IsSlash slashes
  pub plain_name : All IsNameChar name

listed_strip : (dir : List ℕ) → In dir result_directories → is_empty (strip_slashes dir) ≡ false
unfolding strip_slashes
listed_strip dir i =
    all_not (all-In (λ d. not (is_empty (strip_slashes d))) dir result_directories refl i)
  where
    all_not : not (is_empty (strip_slashes dir)) ≡ true → is_empty (strip_slashes dir) ≡ false
    all_not e = ground arith

-- A directory part that is listed, of a path that was split after `h` and a slash.
head-Inside :
    (path h name : List ℕ)
    → path ≡ (h ++ (47 ∷ [])) ++ name
    → All IsNameChar name
    → In (directory (h ++ (47 ∷ []))) result_directories
    → Inside path
head-Inside path h name e a i = elim (Bool-cases (is_empty (strip_slashes h))) [
  | inl b ↦
      let same : directory (h ++ (47 ∷ [])) ≡ h ++ (47 ∷ []) = rw (strip_slashes_snoc h, b) refl in
      absurd (
        ground (
          arith,
          listed_strip (h ++ (47 ∷ [])) (subst (λ d. In d result_directories) same i),
          strip_slashes_snoc h,
        ))
  | inr b ↦
      let same : directory (h ++ (47 ∷ [])) ≡ strip_slashes h = rw (strip_slashes_snoc h, b) refl in
      let (ss, f, s) = strip_slashes_lem h in
      record {
        dir = strip_slashes h;
        slashes = ss;
        name = name;
        listed = subst (λ d. In d result_directories) same i;
        parts =
            e
            ∙ append_assoc h (47 ∷ []) name
            ∙ ap (λ l. l ++ (47 ∷ name)) f
            ∙ append_assoc (strip_slashes h) ss (47 ∷ name);
        only_slashes = s;
        plain_name = a;
      }
]

split-Inside :
    (path : List ℕ) → any (same_bytes (split_path path).0) result_directories ≡ true → Inside path
unfolding split_path
split-Inside path e = go (split_last path) (split_last_lem path) e
  where
    go :
        (o : Option (List ℕ × List ℕ))
        → SplitsLast path o
        → any
            (same_bytes
              (elim o as (λ _. List ℕ × List ℕ) [
                | none ↦ ([], path)
                | some p ↦ (directory p.0, p.1)
              ]).0)
            result_directories
          ≡ true
        → Inside path
    go none a q = absurd (ground arith)
    go (some p) (h, e', f, a) q = head-Inside path h p.1 (f ∙ ap (λ l. l ++ p.1) e') a (
        subst (λ l. In (directory l) result_directories) e'
          (any-In (directory p.0) result_directories q))

-- A path that netlog_sanitize_fname accepts is the one that was sent with backslashes turned into
-- slashes, and is one of the result directories, slashes, and a name without slashes.
pub netlog_sanitize_fname-Inside :
    (raw path : List ℕ) → netlog_sanitize_fname raw ≡ some path → (path ≡ slashed raw) × Inside path
unfolding netlog_sanitize_fname
netlog_sanitize_fname-Inside raw path e =
    elim (Bool-cases (any (same_bytes (split_path (slashed raw)).0) result_directories)) [
      | inl q ↦
          let same : path ≡ slashed raw = ground arith in
          (same, subst Inside (sym same) (split-Inside (slashed raw) q))
      | inr q ↦ absurd (ground arith)
    ]
