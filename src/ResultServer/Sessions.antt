-- ===== src/ResultServer/Sessions.antt =====
-- `GeventResultServerWorker` of lib/cuckoo/core/resultserver.py: the addresses of the machines, and
-- the connections of their guests. Each connection runs `handle` in a thread of its own; its steps
-- are those between which other threads may act.
pub mod Cancel
use capev.Base.{
  ℕ, zero, suc, ◌==◌, String, str_eq, Bool, true, false, not, ◌&&◌, ◌||◌, Option, none, some, List,
  [], ◌∷◌, ◌++◌, map, keep, if◌then◌else◌, any, member,
}

-- A connection with the task that `handle` found for its address.
pub record Session : Type 0 where
  pub ctx : ℕ
  pub ip : String
  pub task_id : ℕ

-- `tasks` and `handlers`, the latter as its pairs of a task and a context; the connections whose
-- protocol is negotiated, those whose handler runs, and the contexts that were cancelled.
pub record Server : Type 0 where
  pub tasks : List (String × ℕ)
  pub handlers : List (ℕ × ℕ)
  pub negotiating : List Session
  pub running : List Session
  pub cancelled : List ℕ

abbrev pub is_at : String → String × ℕ → Bool
is_at ip e = str_eq e.0 ip

abbrev pub is_of : ℕ → ℕ × ℕ → Bool
is_of task_id e = e.0 == task_id

-- `tasks.get(ipaddr)`
abbrev pub get_task : String → List (String × ℕ) → Option ℕ
get_task ip [] = none
get_task ip (e ∷ es) = if str_eq e.0 ip then some e.1 else get_task ip es

unfoldable pub add_task : ℕ → String → Server → Server
add_task task_id ip s = record s { tasks = (ip, task_id) ∷ keep (λ e. not (is_at ip e)) s.tasks }

unfoldable pub del_task : ℕ → String → Server → Server
del_task task_id ip s = record s {
  tasks = keep (λ e. not (is_at ip e)) s.tasks;
  handlers = keep (λ e. not (is_of task_id e)) s.handlers;
  cancelled = map (λ (e : ℕ × ℕ). e.1) (keep (is_of task_id) s.handlers) ++ s.cancelled;
}

abbrev pub has_ctx : ℕ → Session → Bool
has_ctx ctx c = c.ctx == ctx

abbrev pub find_session : ℕ → List Session → Option Session
find_session ctx [] = none
find_session ctx (c ∷ cs) = if c.ctx == ctx then some c else find_session ctx cs

-- The start of `handle`; a task id of 0 counts as none.
abbrev pub accept : ℕ → String → Option ℕ → Server → Server
accept ctx ip none s = s
accept ctx ip (some task_id) s =
    if task_id == 0
    then s
    else record s { negotiating = record { ctx = ctx; ip = ip; task_id = task_id } ∷ s.negotiating }

unfoldable pub connect : ℕ → String → Server → Server
connect ctx ip s = accept ctx ip (get_task ip s.tasks) s

abbrev pub is_task : ℕ → Option ℕ → Bool
is_task task_id none = false
is_task task_id (some t) = t == task_id

abbrev pub leave_negotiation : ℕ → Server → Server
leave_negotiation ctx s = record s { negotiating = keep (λ c. not (has_ctx ctx c)) s.negotiating }

-- After the negotiation: the context is registered if its task is still there.
abbrev pub register_session : Option Session → Server → Server
register_session none s = s
register_session (some c) s =
    if is_task c.task_id (get_task c.ip s.tasks)
    then record s { handlers = (c.task_id, c.ctx) ∷ s.handlers; running = c ∷ s.running }
    else s

unfoldable pub negotiated : ℕ → Server → Server
negotiated ctx s = register_session (find_session ctx s.negotiating) (leave_negotiation ctx s)

-- The negotiation ends without a protocol: `EOFError`, or an exception that leaves `handle`.
unfoldable pub give_up : ℕ → Server → Server
give_up ctx s = leave_negotiation ctx s

-- The handler ends: the context is discarded and cancelled.
unfoldable pub finish : ℕ → Server → Server
finish ctx s = record s {
  handlers = keep (λ (e : ℕ × ℕ). not (e.1 == ctx)) s.handlers;
  running = keep (λ c. not (has_ctx ctx c)) s.running;
  cancelled = ctx ∷ s.cancelled;
}

pub data Step : Type 0 where
  adds dels : ℕ → String → Step
  connects : ℕ → String → Step
  negotiates gives_up finishes : ℕ → Step

unfoldable pub step : Step → Server → Server
step (adds task_id ip) s = add_task task_id ip s
step (dels task_id ip) s = del_task task_id ip s
step (connects ctx ip) s = connect ctx ip s
step (negotiates ctx) s = negotiated ctx s
step (gives_up ctx) s = give_up ctx s
step (finishes ctx) s = finish ctx s

unfoldable pub run : List Step → Server → Server
run [] s = s
run (st ∷ sts) s = run sts (step st s)

abbrev pub empty : Server
empty = record { tasks = []; handlers = []; negotiating = []; running = []; cancelled = [] }
