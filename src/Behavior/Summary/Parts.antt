-- ===== src/Behavior/Summary/Parts.antt =====
-- modules/processing/behavior.py, `Summary`: the keys and files that are read, written or deleted are
-- among all keys and files.
use capev.Base.{
  All, any, arith, Bool, Bool-cases, List, [], ◌∷◌, ◌++◌, Option, none, some, ◌==◌, false, true,
  inl, inr, ℕ, ◌&&◌, ◌≡◌, refl, ◌∙◌, sym, if◌then◌else◌,
}
use capev.Behavior.Calls.{Raw, Call, Python, Text, get_argument, get_raw_argument}
use capev.Behavior.Texts.{truthy, with_drive}
use capev.Behavior.Marks.{
  Field, Mark, keys, read_keys, write_keys, delete_keys, mutexes, files, read_files, write_files,
  delete_files, started_services, created_services, int_of, access_of, executed_commands,
  resolved_apis, only, create_key, disposed, delete_info, set_information, shell_execute,
  delete_or_remove, resolve, file_access,
}
use capev.Behavior.Summary.{Lists, select, branches, collect}
use capev.Behavior.Summary.Collected.{asks, has, has-collect}
use capev.Behavior.Summary.Closed.{
  is_closed, IsClosed, marks-IsClosed, append-IsClosed, then_int-IsClosed, nothing-IsClosed, whole,
}

module _ (py : Python) (call : Call) where
  disposed-IsClosed : (n : Option Text) (bs : List ℕ) → IsClosed (disposed py call n bs)
  unfolding is_closed
  disposed-IsClosed n [] = record { implies = λ f t e. cc }
  disposed-IsClosed n (b ∷ bs) = elim (Bool-cases (b == 0)) [
    | inl e ↦ rw e nothing-IsClosed
    | inr e ↦ rw e (marks-IsClosed n (delete_files ∷ []) refl)
  ]

  delete_info-IsClosed : (n : Option Text) (r : Option Raw) → IsClosed (delete_info py call n r)
  delete_info-IsClosed n none = nothing-IsClosed
  delete_info-IsClosed n (some (Raw.bytes [])) = nothing-IsClosed
  delete_info-IsClosed n (some (Raw.bytes (b ∷ bs))) = disposed-IsClosed n (b ∷ bs)
  delete_info-IsClosed n (some (Raw.text [])) = nothing-IsClosed
  delete_info-IsClosed n (some (Raw.text (c ∷ cs))) = disposed-IsClosed n (py.encode (c ∷ cs))

  if-IsClosed :
      (b : Bool) (x y : Option (List Mark))
      → IsClosed x
      → IsClosed y
      → IsClosed (if b then x else y)
  if-IsClosed true x y hx hy = hx
  if-IsClosed false x y hx hy = hy

  set_information-IsClosed :
      (i : Option ℕ) (n : Option Text) → IsClosed (set_information py call i n)
  set_information-IsClosed none n = record { implies = λ f t e. cc }
  set_information-IsClosed (some i) n =
      if-IsClosed (truthy n && i == 13) _ _
        (delete_info-IsClosed n (get_raw_argument call "FileInformation")) nothing-IsClosed

  create_key-IsClosed : (n : Option Text) → IsClosed (create_key py call n)
  unfolding create_key is_closed
  create_key-IsClosed n = then_int-IsClosed _ _ (λ d. marks-IsClosed n _ (kinds (d == 1)))
    where
      kinds : (b : Bool) → is_closed (keys ∷ only b write_keys) ≡ true
      kinds true = refl
      kinds false = refl

  shell_execute-IsClosed : (n : Option Text) → IsClosed (shell_execute py call n)
  unfolding is_closed
  shell_execute-IsClosed none = record { implies = λ f t e. cc }
  shell_execute-IsClosed (some n) =
      append-IsClosed _ _ (marks-IsClosed (with_drive n) (files ∷ []) refl)
        (marks-IsClosed _ (executed_commands ∷ []) refl)

  file_access-IsClosed : IsClosed (file_access py call)
  unfolding file_access is_closed
  file_access-IsClosed =
      then_int-IsClosed (access_of py call (get_argument call "DesiredAccess")) _ (λ d.
        append-IsClosed _ _
          (append-IsClosed _ _ (marks-IsClosed _ _ (kinds _ _))
            (marks-IsClosed _ (read_files ∷ files ∷ []) refl))
          (marks-IsClosed _ (write_files ∷ files ∷ []) refl))
    where
      kinds :
          (r w : Bool)
          → is_closed (only r read_files ++ (only w write_files ++ (files ∷ []))) ≡ true
      kinds true true = refl
      kinds true false = refl
      kinds false true = refl
      kinds false false = refl

  resolve-IsClosed : (d n : Option Text) → IsClosed (resolve py call d n)
  unfolding is_closed
  resolve-IsClosed none n = record { implies = λ f t e. cc }
  resolve-IsClosed (some d) n = marks-IsClosed _ (resolved_apis ∷ []) refl

  branches-IsClosed : All (λ (b : Bool × Option (List Mark)). IsClosed b.1) (branches py call)
  unfolding is_closed delete_or_remove
  branches-IsClosed = (
    marks-IsClosed _ (keys ∷ []) refl,
    (
      marks-IsClosed _ (keys ∷ write_keys ∷ []) refl,
      (
        marks-IsClosed _ (keys ∷ delete_keys ∷ []) refl,
        (
          create_key-IsClosed _,
          (
            marks-IsClosed _ (keys ∷ []) refl,
            (
              create_key-IsClosed _,
              (
                marks-IsClosed _ (keys ∷ read_keys ∷ []) refl,
                (
                  marks-IsClosed _ (files ∷ []) refl,
                  (
                    shell_execute-IsClosed _,
                    (
                      set_information-IsClosed
                          (int_of py.int (get_argument call "FileInformationClass")) _,
                      (
                        marks-IsClosed _ (files ∷ delete_files ∷ []) refl,
                        (
                          marks-IsClosed _ (started_services ∷ []) refl,
                          (
                            marks-IsClosed _ (created_services ∷ []) refl,
                            (
                              marks-IsClosed _ (executed_commands ∷ []) refl,
                              (
                                resolve-IsClosed _ _,
                                (
                                  marks-IsClosed _ (executed_commands ∷ []) refl,
                                  (
                                    append-IsClosed _ _
                                        (marks-IsClosed _ (files ∷ delete_files ∷ []) refl)
                                        (marks-IsClosed _ (files ∷ write_files ∷ []) refl),
                                    (
                                      file_access-IsClosed,
                                      (marks-IsClosed _ (mutexes ∷ []) refl, tt),
                                    ),
                                  ),
                                ),
                              ),
                            ),
                          ),
                        ),
                      ),
                    ),
                  ),
                ),
              ),
            ),
          ),
        ),
      ),
    ),
  )

select-IsClosed :
    (bs : List (Bool × Option (List Mark)))
    → All (λ (b : Bool × Option (List Mark)). IsClosed b.1) bs
    → IsClosed (select bs)
select-IsClosed [] h = nothing-IsClosed
select-IsClosed ((true, branch) ∷ bs) h = h.0
select-IsClosed ((false, branch) ∷ bs) h = select-IsClosed bs h.1

any-imp :
    {A : Type 0} (p q : A → Bool) (xs : List A)
    → ((x : A) → p x ≡ true → q x ≡ true)
    → any p xs ≡ true
    → any q xs ≡ true
any-imp p q [] i h = h
any-imp p q (x ∷ xs) i h = ground (arith, i x, any-imp p q xs i)

abbrev pub empty : Lists
empty f = []

-- For all calls, starting from empty lists, every key that is listed as read, written or deleted
-- is in the list of all keys, and every file that is listed as read or written is in the list of
-- all files.
pub collect-whole :
    (py : Python) (calls : List Call) (f : Field) (t : Text)
    → has f t (collect py calls empty) ≡ true
    → has (whole f) t (collect py calls empty) ≡ true
collect-whole py calls f t h =
    has-collect py (whole f) t calls empty
    ∙ any-imp (λ call. asks f t (select (branches py call)))
        (λ call. asks (whole f) t (select (branches py call))) calls
        (λ call. (select-IsClosed (branches py call) (branches-IsClosed py call)).implies f t)
        (sym (has-collect py f t calls empty) ∙ h)
