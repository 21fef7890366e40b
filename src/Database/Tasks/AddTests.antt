-- ===== src/Database/Tasks/AddTests.antt =====
-- Adding a 32-bit executable with a tag of the user to an empty queue, and fetching it.

use capev.Base.{◌≡◌, refl, none, some, [], ◌∷◌, ◌++◌, true, false}
use capev.Database.Machines.{Machine}
use capev.Database.Tasks.{Task, pending, is_local, fetch}
use capev.Database.Tasks.Queue.{sound, claimed}
use capev.Database.Tasks.Tagging.{
  get_linux_vm_tag, get_linux_vm_tag-tag, arch_tag, add_tag, tag_names, split_comma, is_named,
}
use capev.Database.Tasks.Add.{
  Context, AddFaults, committed, integrity_error, id_read, Submission, no_clock, file, FileObject,
  Sample, Store, added, not_added, add, add_sample, insert_task, register_sample, file_tags,
}
use capev.Database.Tasks.Added.{Reports, add-Reports, add-fetch}

abbrev fine : AddFaults
fine = record {
  sample_query = false;
  sample_commit = committed;
  sample_id = id_read;
  tag = false;
  commit = false;
  task_id = false;
}

-- Another session has just stored the sample.
abbrev raced : AddFaults
raced = record fine { sample_commit = integrity_error }

abbrev context : Context
context = record {
  linux_enabled = false;
  now = 50;
  new_sample = 7;
  new_task = 12;
  strptime = λ text. none;
}

abbrev executable : FileObject
executable = record {
  md5 = "d41d8cd98f00b204e9800998ecf8427e";
  file_type = "PE32 executable (GUI) Intel 80386, for MS Windows";
}

abbrev submission : Submission
submission = record {
  «package» = "exe";
  options = some "free=yes";
  priority = none;
  machine = some "";
  platform = none;
  tags = some "office, ";
  clock = no_clock;
  user_id = some 0;
}

abbrev row : Task
row = record {
  id = 12;
  category = "file";
  priority = 1;
  options = some "free=yes";
  machine = some "";
  platform = none;
  machine_id = none;
  sample_id = some 7;
  tags = "office" ∷ "x86" ∷ [];
  clock = 0;
  added_on = 50;
  started_on = none;
  completed_on = none;
  status = pending;
  user_id = some 0;
}

abbrev stored : Sample
stored = record { id = 7; md5 = executable.md5; file_type = executable.file_type }

abbrev empty : Store
empty = record { samples = []; tasks = [] }

abbrev filled : Store
filled = record { samples = stored ∷ []; tasks = row ∷ [] }

add_executable : add context fine submission (file executable) empty ≡ (added 12, filled)
unfolding add add_sample insert_task register_sample file_tags add_tag tag_names split_comma
    is_named
add_executable = refl

add-raced :
    add context raced submission (file executable) empty
    ≡ (added 12, record { samples = []; tasks = record row { sample_id = none } ∷ [] })
unfolding add add_sample insert_task register_sample file_tags add_tag tag_names split_comma
    is_named
add-raced = refl

abbrev host : Machine
host = record {
  id = 1;
  name = "win10";
  label = "win10_1";
  arch = "x64";
  ip = "192.168.122.10";
  platform = "windows";
  tags = "x64" ∷ [];
  interface = none;
  locked = false;
  locked_changed_on = none;
  status = none;
  status_changed_on = none;
}

-- The same submission without tags.
abbrev plain : Submission
plain = record submission { tags = none }

abbrev waiting : Store
waiting = record { samples = stored ∷ []; tasks = record row { tags = "x86" ∷ [] } ∷ [] }

add-plain : add context fine plain (file executable) empty ≡ (added 12, waiting)
unfolding add add_sample insert_task register_sample file_tags add_tag tag_names split_comma
    is_named
add-plain = refl

add-fetch_example :
    (r : Task) × (r.id ≡ 12)
    × (waiting.tasks ≡ [] ++ (r ∷ []))
    × ((fetch sound 60 host waiting.tasks).0 ≡ some (claimed 60 host r))
unfolding is_local
add-fetch_example =
    add-fetch context fine plain executable empty waiting 12 60 host refl refl refl refl refl refl
      add-plain (tt, tt) refl

-- The connection is lost between the commit and the reading of the new id.
abbrev lost : AddFaults
lost = record fine { task_id = true }

add-lost : add context lost plain (file executable) empty ≡ (not_added, waiting)
unfolding add add_sample insert_task register_sample file_tags add_tag tag_names split_comma
    is_named
add-lost = refl

add-Reports_example :
    Reports lost.task_id
      (add context lost plain (file executable) empty).0
      (λ t. t.status ≡ pending)
      empty.tasks
      (add context lost plain (file executable) empty).1.tasks
add-Reports_example =
    add-Reports (λ t. t.status ≡ pending) context lost plain (file executable) empty
      (λ sample. refl)

get_linux_vm_tag_example : get_linux_vm_tag "ELF 32-bit LSB executable, ARM, EABI5" ≡ some "arm"
unfolding arch_tag
get_linux_vm_tag_example = get_linux_vm_tag-tag "ELF 32-bit LSB executable, ARM, EABI5"
