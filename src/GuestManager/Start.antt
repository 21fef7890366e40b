-- ===== src/GuestManager/Start.antt =====
-- lib/cuckoo/core/guest.py, `GuestManager.start_analysis`, as the requests that it sends to the agent.
-- What the agent answers, the files of the host and Python's functions on paths are parameters. A text
-- is the list of its code points.
use capev.Base.{
  any, Bool, if◌then◌else◌, List, [], ◌∷◌, ◌++◌, Option, none, some, ℕ, ◌==◌, not, String, str_eq,
  true, false, ◌||◌, ◌&&◌,
}
use capev.Base.Bytes.{codes, same_bytes}
use capev.Database.Sql.{Faults}
use capev.Database.Guests.{Guests, guest_get_status, guest_set_status}
use capev.Scheduler.Exec.{
  blocked, critical_error, Exc, Exec, external, gets, modify, ok, other_error, pure, raise, raised,
  Result, ◌>>=◌, ◌>>◌,
}
use capev.GuestManager.Wait.{
  available, Attempt, Availability, wait_available, critical_timeout, is_status, left, not_yet,
}
pub mod Follows
pub mod Plan
pub mod Order

abbrev pub Text : Type 0
Text = List ℕ

pub data Request : Type 0 where
  probe : Request
  pinning : Request
  environ : Request
  mkdir : Text → Request
  mkdtemp : Text → Request
  extract : Text → Request
  store : Text → Request
  execpy : Text → Request
  execute : Text → Request

pub record World : Type 0 where
  pub guests : Guests
  pub sent : List Request

abbrev pub M : Type 0 → Type 0
M A = Exec World A

pub record Options : Type 0 where
  pub category : String
  pub file_name : Text
  pub target : Text
  -- `parse_options(options["options"]).get("analpath")`
  pub analpath : Option Text

-- What the code around the method does: the answer to each request (none: it is fine, else what is
-- raised), the status code and the features of the agent (none: its answer cannot be read), its
-- environment and temporary directory, `sys.executable`, `os.path.join`, and the errors of the files of the host.
pub record Env : Type 0 where
  pub task_id : ℕ
  pub platform : String
  pub get_faults : Faults
  pub set_faults : Faults
  -- The rounds of `wait_available`, and the time at which it ends.
  pub attempts : List Attempt
  pub end : ℕ
  pub do_run : Bool
  pub answer : Request → Option Exc
  pub status_code : ℕ
  pub features : Option (List Text)
  pub getenv : String → Option Text
  pub dirpath : Text
  pub executable : Text
  pub zip_error : Option Exc
  pub open_error : Text → Option Exc
  pub join : Text → Text → Text
  -- The files below the directory of the target, as `os.walk` gives them: directory and name.
  pub support : List (Text × Text)
  pub debugged : Bool

module _ (e : Env) (o : Options) where
  -- `get` or `post`
  unfoldable pub send : Request → M (Unit {0})
  send r = do modify (λ w. record w { sent = w.sent ++ (r ∷ []) }); external (e.answer r)

  -- What never goes on, or not within the rounds that were given.
  abbrev pub block : M (Unit {0})
  block w = (blocked, w)

  abbrev pub wait : Availability → M (Unit {0})
  wait left = pure tt
  wait available = pure tt
  wait critical_timeout = raise critical_error
  wait not_yet = block

  -- `self.environ[name]`, which may raise KeyError.
  abbrev pub lookup : Option Text → M Text
  lookup none = raise other_error
  lookup (some t) = pure t

  abbrev pub is_windows : Bool
  is_windows = str_eq e.platform "windows"

  unfoldable pub determine_system_drive : M Text
  determine_system_drive =
      if is_windows
      then (do drive ← lookup (e.getenv "SYSTEMDRIVE"); pure (drive ++ codes "/"))
      else pure (codes "/")

  unfoldable pub determine_temp_path : M Text
  determine_temp_path = if is_windows then lookup (e.getenv "TEMP") else pure (codes "/tmp")

  abbrev pub make_directory : Option Text → Text → M Text
  make_directory none systemdrive = do send (mkdtemp systemdrive); pure e.dirpath
  make_directory (some []) systemdrive = do send (mkdtemp systemdrive); pure e.dirpath
  make_directory (some (c ∷ cs)) systemdrive = do
    send (mkdir (systemdrive ++ (c ∷ cs)))
    pure (systemdrive ++ (c ∷ cs))

  unfoldable pub determine_analyzer_path : M Text
  unfolding send determine_system_drive
  determine_analyzer_path = do
    systemdrive ← determine_system_drive
    make_directory o.analpath systemdrive

  unfoldable pub upload_analyzer : M Text
  unfolding determine_analyzer_path
  upload_analyzer = do
    external e.zip_error
    analyzer_path ← determine_analyzer_path
    send (extract analyzer_path)
    pure analyzer_path

  unfoldable pub upload_sample : M (Unit {0})
  unfolding send determine_temp_path
  upload_sample =
      if str_eq o.category "file" || str_eq o.category "archive"
      then (do
        temp ← determine_temp_path
        external (e.open_error o.target)
        send (store (e.join temp o.file_name)))
      else pure tt

  abbrev pub upload_support_file : Text × Text → M (Unit {0})
  upload_support_file (directory, name) =
      if same_bytes (e.join directory name) o.target then pure tt else (do
        temp ← determine_temp_path
        external (e.open_error (e.join directory name))
        send (store (e.join temp name)))

  unfoldable pub upload_support_files : List (Text × Text) → M (Unit {0})
  unfolding send determine_temp_path
  upload_support_files [] = pure tt
  upload_support_files (f ∷ files) = do upload_support_file f; upload_support_files files

  -- The loop for debugging never ends.
  abbrev pub debug_loop : Bool → M (Unit {0})
  debug_loop true = block
  debug_loop false = pure tt

  abbrev pub has_feature : String → List Text → Bool
  has_feature name features = any (same_bytes (codes name)) features

  -- The request that starts the analyzer.
  abbrev pub start_request : List Text → Text → Request
  start_request features analyzer_path =
      if has_feature "execpy" features
      then execpy (e.join analyzer_path (codes "analyzer.py"))
      else execute ((e.executable ++ codes " ") ++ (analyzer_path ++ codes "\\analyzer.py"))

  abbrev pub pin : List Text → M (Unit {0})
  pin features = if has_feature "pinning" features then send pinning else pure tt

  -- From the pinning on.
  unfoldable pub run_analyzer : List Text → M (Unit {0})
  unfolding send upload_analyzer upload_sample upload_support_files
  run_analyzer features = do
    pin features
    send environ
    analyzer_path ← upload_analyzer
    send (store (e.join analyzer_path (codes "analysis.conf")))
    upload_sample
    upload_support_files e.support
    debug_loop e.debugged
    send (start_request features analyzer_path)

  unfoldable pub fail : M (Unit {0})
  fail =
      modify (λ w. record w { guests = guest_set_status e.set_faults e.task_id "failed" w.guests })

  abbrev pub with_features : Option (List Text) → M (Unit {0})
  with_features none = fail
  with_features (some features) = run_analyzer features

  unfoldable pub contact : M (Unit {0})
  unfolding send fail run_analyzer
  contact = do send probe; if e.status_code == 200 then with_features e.features else fail

  unfoldable pub start_analysis : M (Unit {0})
  unfolding contact
  start_analysis = do
    wait (wait_available e.task_id e.end e.attempts)
    guests ← gets (λ w. w.guests)
    if e.do_run && is_status "starting" (guest_get_status e.get_faults e.task_id guests)
        then contact
        else pure tt
