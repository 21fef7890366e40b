-- ===== src/Database/Tasks/Tests.antt =====
-- The task queue at three tasks.
use capev.Base.{
  ℕ, ◌≡◌, refl, true, false, Option, none, some, List, [], ◌∷◌, String, In, All, keep, Distinct,
  arith,
}
use capev.Database.Sql.{healthy}
use capev.Database.Machines.{Machine}
use capev.Database.Tasks.{
  Task, Status, pending, reported, distributed_completed, first_ordered, is_local, arch_matches,
  update_task, is_eligible, is_pinned_elsewhere, fetch, ban_user_tasks, belongs_to,
}
use capev.Database.Tasks.Order.{IsFirst}
use capev.Database.Tasks.Queue.{sound, claimed, IsKeyed, fetch-IsFirst}
use capev.Database.Tasks.Blocked.{ban-fetch}
use capev.Database.Tasks.History.{serve, fetched_once}
use capev.Database.Tasks.Transitions.{
  Call, set_status_call, fetch_call, ban_call, perform_all, IsStorable, perform_all-IsStorable,
}

abbrev host : Machine
host = record {
  id = 1;
  name = "win10";
  label = "win10_1";
  arch = "x64";
  ip = "192.168.122.10";
  platform = "windows";
  tags = "x64" ∷ [];
  interface = none;
  locked = false;
  locked_changed_on = none;
  status = none;
  status_changed_on = none;
}

abbrev task : ℕ → ℕ → Option String → Status → Option ℕ → Task
task i priority machine status user = record {
  id = i;
  category = "file";
  priority = priority;
  options = some "";
  machine = machine;
  platform = none;
  machine_id = none;
  sample_id = none;
  tags = "x64" ∷ [];
  clock = 0;
  added_on = i;
  started_on = none;
  completed_on = none;
  status = status;
  user_id = user;
}

abbrev low : Task
low = task 1 1 none pending (some 4)

abbrev high : Task
high = task 2 3 none pending (some 5)

abbrev done : Task
done = task 3 3 none reported none

abbrev pinned : Task
pinned = task 4 9 (some "win7_1") pending none

abbrev queue : List Task
queue = low ∷ high ∷ done ∷ []

queue-IsKeyed : IsKeyed queue
queue-IsKeyed = (
  ((λ q. absurd (omega arith)), ((λ q. absurd (omega arith)), tt)),
  (((λ q. absurd (omega arith)), tt), (tt, tt)),
)

fetch-queue :
    fetch sound 8 host queue ≡ (some (claimed 8 host high), low ∷ claimed 8 host high ∷ done ∷ [])
unfolding fetch first_ordered is_local arch_matches update_task
fetch-queue = refl

fetch-IsFirst_example :
    (t : Task) × In t queue
    × (is_eligible host t ≡ true)
    × IsFirst t (keep (is_eligible host) queue)
    × (is_pinned_elsewhere host t ≡ false)
    × (claimed 8 host high ≡ claimed 8 host t)
fetch-IsFirst_example =
    fetch-IsFirst 8 host queue (low ∷ claimed 8 host high ∷ done ∷ []) (claimed 8 host high)
      queue-IsKeyed fetch-queue

fetched_once_example : Distinct (serve ((8, host) ∷ (9, host) ∷ (9, host) ∷ []) [] queue).0
fetched_once_example = fetched_once ((8, host) ∷ (9, host) ∷ (9, host) ∷ []) queue

abbrev calls : List Call
calls =
    fetch_call sound 8 host ∷ set_status_call healthy 9 2 distributed_completed ∷ ban_call 4 ∷ []

queue-IsStorable : All IsStorable queue
queue-IsStorable = (
  (λ q. absurd (ground arith)),
  ((λ q. absurd (ground arith)), ((λ q. absurd (ground arith)), tt)),
)

perform_all-IsStorable_example : All IsStorable (perform_all calls queue)
perform_all-IsStorable_example = perform_all-IsStorable calls queue queue-IsStorable

banned-IsKeyed : IsKeyed (ban_user_tasks 5 queue)
unfolding ban_user_tasks
banned-IsKeyed = (
  ((λ q. absurd (omega arith)), ((λ q. absurd (omega arith)), tt)),
  (((λ q. absurd (omega arith)), tt), (tt, tt)),
)

fetch-banned :
    fetch sound 8 host (ban_user_tasks 5 queue)
    ≡ (some (claimed 8 host low), (fetch sound 8 host (ban_user_tasks 5 queue)).1)
unfolding fetch ban_user_tasks first_ordered is_local arch_matches update_task
fetch-banned = refl

ban-fetch_example : belongs_to 5 (claimed 8 host low) ≡ false
ban-fetch_example =
    ban-fetch 5 8 host queue (fetch sound 8 host (ban_user_tasks 5 queue)).1 (claimed 8 host low)
      banned-IsKeyed fetch-banned
