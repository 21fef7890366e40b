-- ===== src/GuestManager/Tests.antt =====
-- Runs of the guest manager of lib/cuckoo/core/guest.py, and the theorems about it at concrete inputs.
use capev.Base.{
  true, false, List, [], ◌∷◌, ◌++◌, inl, inr, none, some, ℕ, String, Option, ◌≡◌, ◌≢◌, refl, arith,
}
use capev.Base.Bytes.{codes}
use capev.Database.Sql.{healthy}
use capev.Database.Guests.{update_guest, Guests, guest_set_status, guest_get_status}
use capev.Scheduler.Exec.{ok}
use capev.GuestManager.Wait.{
  Attempt, Poll, connected, wait_available, wait_for_completion, goes_on, not_yet, completed,
  refused,
}
use capev.GuestManager.Wait.Ends.{Concludes, wait_available-not_yet, wait_for_completion-Concludes}
use capev.GuestManager.Start.{
  Env, Options, probe, start_analysis, World, pinning, environ, mkdtemp, extract, store, execpy,
}
use capev.GuestManager.Start.Follows.{Any, Follows}
use capev.GuestManager.Start.Plan.{plan}
use capev.GuestManager.Start.Order.{start_analysis-Follows, start_analysis_fails}

abbrev table : String → Guests
table status = record {
  rows =
      record {
        id = 1;
        status = status;
        name = "win10";
        label = "win10";
        manager = "KVM";
        started_on = 0;
        shutdown_on = none;
        task_id = 7;
      }
      ∷ [];
  next_id = 2;
}

abbrev poll : ℕ → Option String → Poll
poll now reply = record {
  faults = healthy;
  guests = table "running";
  do_run = true;
  now = now;
  reply = reply;
  later = table "running";
}

-- The first request fails, the second finds the analysis at work, the third finds it complete.
abbrev polls : List Poll
polls = poll 1 none ∷ poll 2 (some "running") ∷ poll 3 (some "complete") ∷ []

completes : wait_for_completion 7 10 polls ≡ completed (table "complete")
unfolding wait_for_completion guest_get_status guest_set_status update_guest
completes = refl

wait_for_completion-Concludes_example : Concludes 7 10 polls (wait_for_completion 7 10 polls)
wait_for_completion-Concludes_example = wait_for_completion-Concludes 7 10 polls

abbrev attempt : ℕ → Attempt
attempt now = record {
  faults = healthy;
  guests = table "starting";
  do_run = true;
  connection = refused;
  now = now;
}

wait_available-not_yet_example : wait_available 7 10 (attempt 9 ∷ attempt 11 ∷ []) ≢ not_yet
wait_available-not_yet_example =
    wait_available-not_yet 7 10 (attempt 9 ∷ attempt 11 ∷ []) (attempt 11) (inr (inl refl))
      (omega arith)

abbrev options : Options
options = record {
  category = "file";
  file_name = codes "a.exe";
  target = codes "/tmp/1/a.exe";
  analpath = none;
}

abbrev env : ℕ → Env
env status_code = record {
  task_id = 7;
  platform = "linux";
  get_faults = healthy;
  set_faults = healthy;
  attempts = attempt 1 ∷ record (attempt 2) { connection = connected } ∷ [];
  end = 10;
  do_run = true;
  answer = λ r. none;
  status_code = status_code;
  features = some (codes "execpy" ∷ codes "pinning" ∷ []);
  getenv = λ name. none;
  dirpath = codes "/x";
  executable = codes "python3";
  zip_error = none;
  open_error = λ path. none;
  join = λ a b. a ++ (codes "/" ++ b);
  support = (codes "/tmp/1", codes "a.exe") ∷ (codes "/tmp/1", codes "b.dll") ∷ [];
  debugged = false;
}

abbrev world : World
world = record { guests = table "starting"; sent = [] }

starting : goes_on healthy 7 "starting" (table "starting") true ≡ true
unfolding goes_on guest_get_status
starting = refl

-- The target itself is not sent again among the supporting files.
all_sent :
    (start_analysis (env 200) options world).1.sent
    ≡ probe
      ∷ pinning
      ∷ environ
      ∷ mkdtemp (codes "/")
      ∷ extract (codes "/x")
      ∷ store (codes "/x/analysis.conf")
      ∷ store (codes "/tmp/a.exe")
      ∷ store (codes "/tmp/b.dll")
      ∷ execpy (codes "/x/analyzer.py")
      ∷ []
unfolding start_analysis wait_available guest_get_status
all_sent = refl

start_analysis-Follows_example :
    Follows Any world
      (probe ∷ plan (env 200) options (codes "execpy" ∷ codes "pinning" ∷ []))
      (start_analysis (env 200) options world)
unfolding wait_available guest_get_status
start_analysis-Follows_example =
    start_analysis-Follows (env 200) options (codes "execpy" ∷ codes "pinning" ∷ []) world refl refl
      refl refl refl

start_analysis_fails_example : start_analysis (env 404) options world ≡ (
  ok tt,
  record { guests = guest_set_status healthy 7 "failed" (table "starting"); sent = probe ∷ [] },
)
unfolding wait_available guest_get_status
start_analysis_fails_example =
    start_analysis_fails (env 404) options world refl refl refl refl (inl refl)
