-- ===== src/Database/Tasks/Add.antt =====
-- `add` of lib/cuckoo/core/database.py: a submission becomes a row of `tasks`. The columns of the
-- submission that the queue never reads are left out. The ids that the database gives, the time, the
-- parser of clocks and the setting LINUX_ENABLED are inputs.
use capev.Base.{
  ℕ, ◌==◌, Bool, true, false, not, ◌&&◌, ◌||◌, Option, none, some, List, [], ◌∷◌, ◌++◌, head?, keep,
  is_some, if◌then◌else◌, String, str_eq,
}
use capev.Base.Bytes.{codes}
use capev.Database.Tasks.{Task, pending}
use capev.Database.Tasks.Tagging.{contains, ends, get_linux_vm_tag, add_tag, tag_names}

-- The columns of `Sample` that are looked up or joined.
pub record Sample : Type 0 where
  pub id : ℕ
  pub md5 : String
  pub file_type : String

-- What `File` reads of the file on disk.
pub record FileObject : Type 0 where
  pub md5 : String
  pub file_type : String

-- The classes File, PCAP, Static and URL.
pub data Target : Type 0 where
  file pcap static_file : FileObject → Target
  url : Target

-- `obj.__class__.__name__.lower()`
abbrev pub category_of : Target → String
category_of (file f) = "file"
category_of (pcap f) = "pcap"
category_of (static_file f) = "static"
category_of url = "url"

-- The argument `clock`: not given, a text, or a time.
pub data Clock : Type 0 where
  no_clock : Clock
  clock_text : String → Clock
  clock_time : ℕ → Clock

pub record Submission : Type 0 where
  pub «package» : String
  pub options : Option String
  pub priority : Option ℕ
  pub machine : Option String
  pub platform : Option String
  pub tags : Option String
  pub clock : Clock
  pub user_id : Option ℕ

pub data SampleCommit : Type 0 where
  committed integrity_error database_error : SampleCommit

-- Reading `sample.id`, of which only an `OperationalError` is caught.
pub data SampleRead : Type 0 where
  id_read operational_error other_error : SampleRead

-- Which calls of SQLAlchemy raise. A commit expires the objects, so reading `task.id` behind it asks
-- the database again. A failing `_get_or_create` is not caught.
pub record AddFaults : Type 0 where
  pub sample_query : Bool
  pub sample_commit : SampleCommit
  pub sample_id : SampleRead
  pub tag : Bool
  pub commit : Bool
  pub task_id : Bool

-- What the calls take from outside.
pub record Context : Type 0 where
  pub linux_enabled : Bool
  pub now : ℕ
  pub new_sample : ℕ
  pub new_task : ℕ
  pub strptime : String → Option ℕ

pub record Store : Type 0 where
  pub samples : List Sample
  pub tasks : List Task

-- The id of the new task, `None`, or an exception that leaves the method.
pub data Added : Type 0 where
  added : ℕ → Added
  not_added raised : Added

abbrev pub priority_of : Option ℕ → ℕ
priority_of none = 1
priority_of (some n) = if n == 0 then 1 else n

-- Times are numbers, and the epoch is 0.
abbrev pub clock_of : Context → Clock → ℕ
clock_of c no_clock = 0
clock_of c (clock_time t) = t
clock_of c (clock_text s) = if str_eq s "" then 0 else elim (c.strptime s) [ none ↦ 0 | some t ↦ t ]

-- `package.endswith("_x64")`
abbrev pub is_x64_package : String → Bool
is_x64_package name = ends (codes name) (codes "_x64")

-- The tags with the architecture of the file.
unfoldable pub file_tags : Context → Submission → FileObject → Option String
file_tags c s f =
    if contains (codes f.file_type) (codes "PE32+")
      || contains (codes f.file_type) (codes "64-bit")
      || is_x64_package s.«package»
    then some (add_tag s.tags "x64")
    else if c.linux_enabled
    then elim (get_linux_vm_tag f.file_type) [
      | none ↦ s.tags
      | some name ↦ if str_eq name "" then s.tags else some (add_tag s.tags name)
    ]
    else some (add_tag s.tags "x86")

-- For a URL the tags of the submission are replaced.
abbrev pub tags_of : Context → Submission → Target → Option String
tags_of c s (file f) = file_tags c s f
tags_of c s (pcap f) = file_tags c s f
tags_of c s (static_file f) = file_tags c s f
tags_of c s url = some "x64,x86"

abbrev pub started_on_of : Context → Target → Option ℕ
started_on_of c (pcap f) = some c.now
started_on_of c (static_file f) = some c.now
started_on_of c _ = none

abbrev pub new_task : Context → Submission → Target → Option ℕ → Task
new_task c s t sample = record {
  id = c.new_task;
  category = category_of t;
  priority = priority_of s.priority;
  options = s.options;
  machine = s.machine;
  platform = s.platform;
  machine_id = none;
  sample_id = sample;
  tags = tag_names (tags_of c s t);
  clock = clock_of c s.clock;
  added_on = c.now;
  started_on = started_on_of c t;
  completed_on = none;
  status = pending;
  user_id = s.user_id;
}

abbrev pub sample_of : AddFaults → FileObject → List Sample → Option Sample
sample_of f o rows = if f.sample_query then none else head? (keep (λ r. str_eq r.md5 o.md5) rows)

abbrev pub new_sample : Context → FileObject → Sample
new_sample c f = record { id = c.new_sample; md5 = f.md5; file_type = f.file_type }

-- The rest of `add`, from the new row on. The row stays if reading its id fails after the commit.
unfoldable pub insert_task : AddFaults → Task → Store → Added × Store
insert_task f t st =
    if f.tag && is_some (head? t.tags)
    then (raised, st)
    else if f.commit
    then (not_added, st)
    else (if f.task_id then not_added else added t.id, record st { tasks = st.tasks ++ (t ∷ []) })

-- The first commit: whether `add` goes on, the id of the sample, and the table of samples. A new
-- sample that is rolled back has no id.
unfoldable pub register_sample :
    Context → AddFaults → FileObject → List Sample → Bool × Option ℕ × List Sample
register_sample c f o rows = elim (sample_of f o rows) [
  | some r ↦ elim f.sample_commit [
    | committed ↦ (true, some r.id, rows)
    | integrity_error ↦ (true, some r.id, rows)
    | database_error ↦ (false, none, rows)
  ]
  | none ↦ elim f.sample_commit [
    | committed ↦ (true, some c.new_sample, rows ++ (new_sample c o ∷ []))
    | integrity_error ↦ (true, none, rows)
    | database_error ↦ (false, none, rows)
  ]
]

-- A file, a capture or a file for static analysis. Reading the id of the sample may fail too.
unfoldable pub add_sample :
    Context → AddFaults → Submission → Target → FileObject → Store → Added × Store
unfolding register_sample insert_task
add_sample c f s t o st =
    let (goes_on, id, rows) = register_sample c f o st.samples in
    let st' : Store = record st { samples = rows } in
    if not goes_on then (not_added, st') else elim f.sample_id [
      | id_read ↦ insert_task f (new_task c s t id) st'
      | operational_error ↦ (not_added, st')
      | other_error ↦ (raised, st')
    ]

unfoldable pub add : Context → AddFaults → Submission → Target → Store → Added × Store
unfolding add_sample insert_task
add c f s (file o) st = add_sample c f s (file o) o st
add c f s (pcap o) st = add_sample c f s (pcap o) o st
add c f s (static_file o) st = add_sample c f s (static_file o) o st
add c f s url st = insert_task f (new_task c s url none) st

-- A file that is not there is not added.
unfoldable pub add_path :
    Context → AddFaults → Submission → Bool → FileObject → Store → Added × Store
unfolding add
add_path c f s exists o st = if exists then add c f s (file o) st else (not_added, st)

-- `add_pcap` passes `tlp`, `user_id` and `username` by position, one place too early: `user_id` becomes
-- `tlp`, and the argument `user_id` of `add` keeps its default 0.
unfoldable pub add_pcap : Context → AddFaults → Submission → FileObject → Store → Added × Store
unfolding add
add_pcap c f s o st = add c f (record s { user_id = some 0 }) (pcap o) st
