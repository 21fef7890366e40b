-- ===== src/Agent/Server/Obeys.antt =====
-- agent/agent.py and lib/cuckoo/core/guest.py together: what the agent does for the requests that
-- the guest manager sends.
use capev.Base.{
  Bool-cases, sym, List, [], ◌∷◌, ◌++◌, append_assoc, append_empty, none, some, Option, String,
  str_eq, true, false, ◌≡◌, refl, ◌∙◌, ap, eq_refl, ◌⊎◌, inl, inr, map,
}
use capev.Agent.Handlers.{
  Action, do_execpy, do_execute, do_extract, do_mkdir, do_mkdtemp, do_pinning, do_store, execute,
  execute_python, extract, get, make_directory, make_temporary_directory, post, Request, State,
  store, System, pin, start, act,
}
use capev.Agent.Server.{dispatch, handle, is_allowed, routes, serve}
use capev.Agent.Server.Pinned.{handle_allowed}
use capev.GuestManager.Start as Manager

module _ (sys : System) (ip : String) (text : Manager.Text → String) where
  abbrev gets : String → Request
  gets path = record { method = get; path = path; client_ip = ip; form = []; files = [] }

  abbrev posts : String → List (String × String) → List String → Request
  posts path form files = record {
    method = post;
    path = path;
    client_ip = ip;
    form = form;
    files = files;
  }

  -- A request of the guest manager as the agent gets it.
  unfoldable pub received : Manager.Request → Request
  received Manager.probe = gets "/"
  received Manager.pinning = gets "/pinning"
  received Manager.environ = gets "/environ"
  received (Manager.mkdir p) = posts "/mkdir" (("dirpath", text p) ∷ []) []
  received (Manager.mkdtemp p) = posts "/mkdtemp" (("dirpath", text p) ∷ []) []
  received (Manager.extract p) = posts "/extract" (("dirpath", text p) ∷ []) ("zipfile" ∷ [])
  received (Manager.store p) = posts "/store" (("filepath", text p) ∷ []) ("file" ∷ [])
  received (Manager.execpy p) = posts "/execpy" (("filepath", text p) ∷ ("async", "yes") ∷ []) []
  received (Manager.execute p) = posts "/execute" (("command", text p) ∷ ("async", "yes") ∷ []) []

  -- What it asks for.
  unfoldable pub asked : Manager.Request → List Action
  asked Manager.probe = []
  asked Manager.pinning = []
  asked Manager.environ = []
  asked (Manager.mkdir p) = make_directory (text p) ∷ []
  asked (Manager.mkdtemp p) = make_temporary_directory (some (text p)) ∷ []
  asked (Manager.extract p) = extract (text p) ∷ []
  asked (Manager.store p) = store (text p) ∷ []
  asked (Manager.execpy p) = execute_python (text p) ∷ []
  asked (Manager.execute p) = execute (text p) ∷ []

  unfoldable pub all_asked : List Manager.Request → List Action
  all_asked [] = []
  all_asked (q ∷ qs) = asked q ++ all_asked qs

  -- The host is neither the guest itself nor the address under which the guest knows itself.
  pub record IsHost : Type 0 where
    pub remote : str_eq ip "127.0.0.1" ≡ false
    pub other : str_eq ip sys.local_ip ≡ false

  -- The agent is pinned to nobody else.
  abbrev pub IsOurs : Option String → Type 0
  IsOurs o = (o ≡ none) ⊎ (o ≡ some ip)

  received-ip : (q : Manager.Request) → (received q).client_ip ≡ ip
  unfolding received
  received-ip Manager.probe = refl
  received-ip Manager.pinning = refl
  received-ip Manager.environ = refl
  received-ip (Manager.mkdir p) = refl
  received-ip (Manager.mkdtemp p) = refl
  received-ip (Manager.extract p) = refl
  received-ip (Manager.store p) = refl
  received-ip (Manager.execpy p) = refl
  received-ip (Manager.execute p) = refl

  ours_allowed :
      (o : Option String) (q : Manager.Request) → IsOurs o → is_allowed sys o (received q) ≡ true
  unfolding is_allowed
  ours_allowed o q (inl e) = rw e refl
  ours_allowed o q (inr e) = rw e (rw (received-ip q) (rw (eq_refl ip) refl))

  -- The agent has set about the actions, and is still pinned to nobody else.
  record Did (actions : List Action) (s s' : State) : Type 0 where
    pub did : s'.actions ≡ s.actions ++ actions
    pub ours : IsOurs s'.client_ip

  module _ (s : State) (h : IsOurs s.client_ip) where
    nothing-Did : Did [] s s
    nothing-Did = record { did = sym (append_empty s.actions); ours = h }

    act-Did : (a : Action) → Did (a ∷ []) s (act a s)
    act-Did a = record { did = refl; ours = h }

    start-Did : (a : Action) (problem : String) → Did (a ∷ []) s (start sys a problem s).1
    start-Did a problem = elim (Bool-cases (sys.fails a)) [
      | inl e ↦ rw e record { did = refl; ours = h }
      | inr e ↦ rw e record { did = refl; ours = h }
    ]

    pin-Did : (o : Option String) → Did [] s (pin sys o (gets "/pinning") s).1
    unfolding pin
    pin-Did none = record { did = sym (append_empty s.actions); ours = inr refl }
    pin-Did (some other) = nothing-Did

    dispatch-Did :
        (q : Manager.Request)
        → IsHost
        → Did (asked q) s (dispatch sys (routes sys) (received q) s).1
    unfolding received asked dispatch do_pinning do_mkdir do_mkdtemp do_extract do_store do_execpy
        do_execute
    dispatch-Did Manager.probe host = nothing-Did
    dispatch-Did Manager.pinning host = pin-Did s.client_ip
    dispatch-Did Manager.environ host = nothing-Did
    dispatch-Did (Manager.mkdir p) host = act-Did (make_directory (text p))
    dispatch-Did (Manager.mkdtemp p) host = act-Did (make_temporary_directory (some (text p)))
    dispatch-Did (Manager.extract p) host = act-Did (extract (text p))
    dispatch-Did (Manager.store p) host = act-Did (store (text p))
    dispatch-Did (Manager.execpy p) host = start-Did (execute_python (text p)) _
    dispatch-Did (Manager.execute p) host =
        rw (host.remote) (rw (host.other) (start-Did (execute (text p)) _))

    handle-Did : (q : Manager.Request) → IsHost → Did (asked q) s (handle sys (received q) s).1
    handle-Did q host =
        rw (handle_allowed sys (received q) s (ours_allowed s.client_ip q h)) (dispatch-Did q host)

  -- For any requests of the guest manager, from a host that is neither the guest itself nor the
  -- address under which the guest knows itself, an agent that is not pinned, or pinned to that
  -- host, sets about exactly the actions that the requests ask for, in their order.
  pub serve-received :
      (qs : List Manager.Request) (s : State)
      → IsHost
      → IsOurs s.client_ip
      → (serve sys (map received qs) s).actions ≡ s.actions ++ all_asked qs
  unfolding serve all_asked
  serve-received [] s host h = sym (append_empty s.actions)
  serve-received (q ∷ qs) s host h =
      let first = handle-Did s h q host in
      serve-received qs (handle sys (received q) s).1 host first.ours
      ∙ ap (λ t. t ++ all_asked qs) first.did
      ∙ append_assoc s.actions (asked q) (all_asked qs)
