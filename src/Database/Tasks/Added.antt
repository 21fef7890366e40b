-- ===== src/Database/Tasks/Added.antt =====
-- What `add` of lib/cuckoo/core/database.py leaves in the tables, and which machine fetches the task.
use text.Mathlib.Text.{find?}
use capev.Base.{
  ℕ, ◌≡◌, refl, ◌⊎◌, inl, inr, Bool, true, false, ◌&&◌, ◌||◌, Option, none, some, List, [], ◌∷◌,
  ◌++◌, head?, keep, is_some, subst, arith, In, Bool-cases, any, str_eq, String,
}
use capev.Database.Sql.{truthy}
use capev.Database.Machines.{Machine}
use capev.Database.Tasks.{
  Task, is_local, arch_matches, is_eligible, is_pinned_elsewhere, fetch, first_ordered, take_row,
}
use capev.Database.Tasks.Queue.{sound, claimed, IsKeyed, get_task-claimed}
use capev.Database.Tasks.Tagging.{tag_names, tag_names-add_tag, split_comma, is_named, add_tag}
use capev.Database.Tasks.Add.{
  Context, AddFaults, Submission, Target, SampleRead, id_read, operational_error, other_error,
  Sample, file, pcap, static_file, url, FileObject, Store, Added, added, not_added, raised, add,
  add_sample, insert_task, register_sample, new_task, file_tags, tags_of,
}

-- The row at the end of the table.
abbrev Appended : (Task → Type 0) → List Task → List Task → Type 0
Appended P ts ts' = (row : Task) × (ts' ≡ ts ++ (row ∷ [])) × P row

-- The table after `add`, by its result: an id is that of the one new row, at the end. Without an id
-- the table is as it was, or, only if reading the id fails after the commit (`lost`), has the row.
abbrev pub Reports : Bool → Added → (Task → Type 0) → List Task → List Task → Type 0
Reports lost (added i) P ts ts' = Appended (λ row. (row.id ≡ i) × P row) ts ts'
Reports lost not_added P ts ts' = (ts' ≡ ts) ⊎ ((lost ≡ true) × Appended P ts ts')
Reports lost raised P ts ts' = ts' ≡ ts

insert_task-Reports :
    (P : Task → Type 0) (f : AddFaults) (row : Task) (st : Store)
    → P row
    → Reports f.task_id (insert_task f row st).0 P st.tasks (insert_task f row st).1.tasks
unfolding insert_task
insert_task-Reports P f row st p = elim (Bool-cases (f.tag && is_some (head? row.tags))) [
  | inl e ↦ rw e refl
  | inr e ↦ elim (Bool-cases f.commit) [
    | inl k ↦ rw (e, k) (inl refl)
    | inr k ↦ elim (Bool-cases f.task_id) [
      | inl l ↦ rw (e, k, l) (inr (refl, (row, refl, p)))
      | inr l ↦ rw (e, k, l) (row, refl, (refl, p))
    ]
  ]
]

add_sample-Reports :
    (P : Task → Type 0) (c : Context) (f : AddFaults) (s : Submission) (t : Target) (o : FileObject)
    (st : Store)
    → ((sample : Option ℕ) → P (new_task c s t sample))
    → Reports f.task_id (add_sample c f s t o st).0 P st.tasks (add_sample c f s t o st).1.tasks
unfolding add_sample
add_sample-Reports P c f s t o st p =
    let (goes_on, id, rows) = register_sample c f o st.samples in
    elim (Bool-cases goes_on) [ inr e ↦ rw e (inl refl) | inl e ↦ rw e (read f.sample_id id rows) ]
  where
    read :
        (r : SampleRead) (id : Option ℕ) (rows : List Sample)
        → let st' : Store = record st { samples = rows } in
          let result : Added × Store = elim r [
            | id_read ↦ insert_task f (new_task c s t id) st'
            | operational_error ↦ (not_added, st')
            | other_error ↦ (raised, st')
          ] in
          Reports f.task_id result.0 P st.tasks result.1.tasks
    read id_read id rows =
        insert_task-Reports P f (new_task c s t id) (record st { samples = rows }) (p id)
    read operational_error id rows = inl refl
    read other_error id rows = refl

-- If a property holds of the row that the submission describes, whatever its sample, then,
-- whatever fails, add either appends one row that has the property and the id that it returns, or
-- returns none or raises and leaves the tasks as they were, or, only if the id cannot be read
-- after the commit, returns none and has appended one row that has the property.
pub add-Reports :
    (P : Task → Type 0) (c : Context) (f : AddFaults) (s : Submission) (t : Target) (st : Store)
    → ((sample : Option ℕ) → P (new_task c s t sample))
    → Reports f.task_id (add c f s t st).0 P st.tasks (add c f s t st).1.tasks
unfolding add
add-Reports P c f s (file o) st p = add_sample-Reports P c f s (file o) o st p
add-Reports P c f s (pcap o) st p = add_sample-Reports P c f s (pcap o) o st p
add-Reports P c f s (static_file o) st p = add_sample-Reports P c f s (static_file o) o st p
add-Reports P c f s url st p = insert_task-Reports P f (new_task c s url none) st (p none)

-- One of the two tags that a machine for x64 runs.
abbrev IsTagged : List String → Type 0
IsTagged tags = (any (λ tag. str_eq tag "x64") tags || any (λ tag. str_eq tag "x86") tags) ≡ true

x64_tagged :
    (tags : Option String)
    → any (λ tag. str_eq tag "x64") (tag_names (some (add_tag tags "x64"))) ≡ true
unfolding split_comma is_named
x64_tagged tags = tag_names-add_tag tags "x64" refl refl refl

x86_tagged :
    (tags : Option String)
    → any (λ tag. str_eq tag "x86") (tag_names (some (add_tag tags "x86"))) ≡ true
unfolding split_comma is_named
x86_tagged tags = tag_names-add_tag tags "x86" refl refl refl

url-IsTagged : IsTagged (tag_names (some "x64,x86"))
unfolding tag_names split_comma is_named
url-IsTagged = refl

file_tags-IsTagged :
    (c : Context) (s : Submission) (o : FileObject)
    → c.linux_enabled ≡ false
    → IsTagged (tag_names (file_tags c s o))
unfolding file_tags
file_tags-IsTagged c s o h = ground (arith, x64_tagged s.tags, x86_tagged s.tags)

tags_of-IsTagged :
    (c : Context) (s : Submission) (t : Target)
    → c.linux_enabled ≡ false
    → IsTagged (tag_names (tags_of c s t))
tags_of-IsTagged c s (file o) h = file_tags-IsTagged c s o h
tags_of-IsTagged c s (pcap o) h = file_tags-IsTagged c s o h
tags_of-IsTagged c s (static_file o) h = file_tags-IsTagged c s o h
tags_of-IsTagged c s url h = url-IsTagged

-- A machine for x64 can run each submission with local options, unless Linux is enabled.
new_task-eligible :
    (c : Context) (s : Submission) (t : Target) (sample : Option ℕ) (m : Machine)
    → c.linux_enabled ≡ false
    → is_some (find? m.arch "x64") ≡ true
    → is_local s.options ≡ true
    → is_eligible m (new_task c s t sample) ≡ true
unfolding arch_matches
new_task-eligible c s t sample m h x64 local = rw (x64, local) (tags_of-IsTagged c s t h)

keep-append_last :
    (p : Task → Bool) (ts : List Task) (row : Task)
    → keep p ts ≡ []
    → p row ≡ true
    → keep p (ts ++ (row ∷ [])) ≡ row ∷ []
keep-append_last p [] row e h = ground arith
keep-append_last p (t ∷ ts) row e h = elim (Bool-cases (p t)) [
  | inl k ↦ absurd (ground arith)
  | inr k ↦ rw k (keep-append_last p ts row (ground arith) h)
]

In-last : (ts : List Task) (row : Task) → In row (ts ++ (row ∷ []))
In-last [] row = inl refl
In-last (t ∷ ts) row = inr (In-last ts row)

last-fetch :
    (now : ℕ) (m : Machine) (ts : List Task) (row : Task)
    → IsKeyed (ts ++ (row ∷ []))
    → keep (is_eligible m) ts ≡ []
    → is_eligible m row ≡ true
    → is_pinned_elsewhere m row ≡ false
    → (fetch sound now m (ts ++ (row ∷ []))).0 ≡ some (claimed now m row)
unfolding fetch first_ordered take_row
last-fetch now m ts row k e h ours =
    rw (keep-append_last (is_eligible m) ts row e h, ours)
      (get_task-claimed now m row (ts ++ (row ∷ [])) k (In-last ts row))

-- The row is run by the machine, and not bound to another one.
abbrev Suits : Machine → Task → Type 0
Suits m row = (is_eligible m row ≡ true) × (is_pinned_elsewhere m row ≡ false)

-- A file that is submitted without tags or a platform, with local options and no other machine
-- asked for, and that add accepts while Linux is not enabled, is the task that the next fetch by
-- a machine for x64 returns, if ids are distinct and no earlier task is eligible for the machine.
pub add-fetch :
    (c : Context) (f : AddFaults) (s : Submission) (o : FileObject) (st st' : Store) (i later : ℕ)
    (m : Machine)
    → c.linux_enabled ≡ false
    → truthy s.tags ≡ false
    → truthy s.platform ≡ false
    → is_some (find? m.arch "x64") ≡ true
    → is_local s.options ≡ true
    → is_pinned_elsewhere m (new_task c s (file o) none) ≡ false
    → add c f s (file o) st ≡ (added i, st')
    → IsKeyed st'.tasks
    → keep (is_eligible m) st.tasks ≡ []
    → (row : Task) × (row.id ≡ i)
      × (st'.tasks ≡ st.tasks ++ (row ∷ []))
      × ((fetch sound later m st'.tasks).0 ≡ some (claimed later m row))
add-fetch c f s o st st' i later m linux untagged any x64 local ours e k idle =
    let (row, there, (same, suits)) =
      subst (λ r. Reports f.task_id r.0 (Suits m) st.tasks r.1.tasks) e
        (add-Reports (Suits m) c f s (file o) st
          (λ sample. (new_task-eligible c s (file o) sample m linux x64 local, ours))) in
    (
      row,
      same,
      there,
      rw there (last-fetch later m st.tasks row (subst IsKeyed there k) idle suits.0 suits.1),
    )
