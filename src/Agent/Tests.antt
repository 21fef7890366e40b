-- ===== src/Agent/Tests.antt =====
-- Runs of the agent of agent/agent.py, and the theorems about it at concrete inputs.
use capev.Base.{List, ℕ, inl, map, [], ◌∷◌, none, some, String, true, false, ◌≡◌, refl}
use capev.Agent.Handlers.{
  make_temporary_directory, extract, store, do_pinning, do_execpy, execute_python, form_get, given,
  init, post, reported, Request, State, System,
}
use capev.Agent.Server.{handle, is_allowed, dispatch, serve}
use capev.Agent.Server.Pinned.{pin_request, serve-pin}
use capev.Agent.Server.Obeys.{all_asked, asked, IsHost, received, serve-received}
use capev.GuestManager.Start as Manager
use capev.Agent.Server.Report.{read_status, read_status-report, report}

abbrev guest : System
guest = record {
  fails = λ a. false;
  is_directory = λ path. false;
  is_file = λ path. false;
  is_number = λ t. true;
  local_ip = "10.0.0.5";
}

abbrev fresh : State
fresh = record { status = init; description = none; client_ip = none; actions = [] }

abbrev pinned : State
pinned = record fresh { client_ip = some "10.0.0.1" }

abbrev start_from : String → Request
start_from ip = record {
  method = post;
  path = "/execpy";
  client_ip = ip;
  form = ("filepath", "C:/analyzer.py") ∷ [];
  files = [];
}

-- The agent runs the analyzer for the host, and nothing for another machine.
started :
    (serve guest (pin_request guest "10.0.0.1" ∷ start_from "10.0.0.1" ∷ []) fresh).actions
    ≡ execute_python "C:/analyzer.py" ∷ []
unfolding serve handle is_allowed dispatch do_pinning do_execpy
started = refl

serve-pin_example :
    ((serve guest (pin_request guest "10.0.0.1" ∷ start_from "10.0.0.7" ∷ []) fresh).actions ≡ [])
    × ((serve guest (pin_request guest "10.0.0.1" ∷ start_from "10.0.0.7" ∷ []) fresh).client_ip
        ≡ some "10.0.0.1")
serve-pin_example = serve-pin guest "10.0.0.1" fresh (start_from "10.0.0.7" ∷ []) refl (refl, tt)

read_status-report_example :
    (handle guest (read_status guest "10.0.0.1") (
      serve guest
        (report guest "10.0.0.1" (("status", "complete") ∷ []) ∷ start_from "10.0.0.7" ∷ [])
        pinned)).0
    ≡ reported (given "complete") none
unfolding form_get
read_status-report_example =
    read_status-report guest "10.0.0.1" (("status", "complete") ∷ []) (start_from "10.0.0.7" ∷ [])
      pinned "complete" refl refl ((refl, refl), tt)

-- A text is not read here.
abbrev named : List ℕ → String
named t = "x"

abbrev host_requests : List Manager.Request
host_requests =
    Manager.probe
    ∷ Manager.pinning
    ∷ Manager.environ
    ∷ Manager.mkdtemp []
    ∷ Manager.extract []
    ∷ Manager.store []
    ∷ Manager.execpy []
    ∷ []

host : IsHost guest "10.0.0.1" named
host = record { remote = refl; other = refl }

serve-received_example :
    (serve guest (map (received guest "10.0.0.1" named) host_requests) fresh).actions
    ≡ make_temporary_directory (some "x") ∷ extract "x" ∷ store "x" ∷ execute_python "x" ∷ []
unfolding all_asked asked
serve-received_example = serve-received guest "10.0.0.1" named host_requests fresh host (inl refl)
