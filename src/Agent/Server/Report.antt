-- ===== src/Agent/Server/Report.antt =====
-- agent/agent.py: the status that the analyzer reports to a pinned agent, and that the host reads.
use capev.Base.{
  All, ap, arith, List, [], ◌∷◌, none, some, Option, String, str_eq, true, false, ◌≡◌, refl, ◌∙◌,
  eq_refl,
}
use capev.Agent.Handlers.{
  form_get, get, given, post, put_status, reported, Request, Response, State, System,
}
use capev.Agent.Server.{dispatch, handle, is_allowed, is_report, serve}
use capev.Agent.Server.Pinned.{dispatch_report, handle_allowed, handle_denied, stranger-allowed}

module _ (sys : System) (ip : String) where
  -- What the analyzer in the guest sends.
  abbrev pub report : List (String × String) → Request
  report form = record {
    method = post;
    path = "/status";
    client_ip = "127.0.0.1";
    form = form;
    files = [];
  }

  -- What the guest manager sends.
  abbrev pub read_status : Request
  read_status = record { method = get; path = "/status"; client_ip = ip; form = []; files = [] }

  -- A request of another address that is no report.
  abbrev pub IsRefused : Request → Type 0
  IsRefused r = (str_eq r.client_ip ip ≡ false) × (is_report sys r ≡ false)

  serve_refused :
      (rs : List Request) (s : State)
      → s.client_ip ≡ some ip
      → All IsRefused rs
      → serve sys rs s ≡ s
  unfolding serve
  serve_refused [] s pinned h = refl
  serve_refused (r ∷ rs) s pinned h =
      rw (handle_denied sys r s (stranger-allowed sys ip r s.client_ip pinned h.0.0 ∙ h.0.1))
        (serve_refused rs s pinned h.1)

  report_allowed :
      (form : List (String × String)) (o : Option String) → is_allowed sys o (report form) ≡ true
  unfolding is_allowed
  report_allowed form none = refl
  report_allowed form (some other) = ground arith

  put_status_lem :
      (form : List (String × String)) (s : State) (x : String)
      → form_get "status" form ≡ some x
      → (put_status sys (report form) s).1
        ≡ record s { status = given x; description = form_get "description" form }
  unfolding put_status
  put_status_lem form s x e = rw e

  handle-report :
      (form : List (String × String)) (s : State) (x : String)
      → form_get "status" form ≡ some x
      → (handle sys (report form) s).1
        ≡ record s { status = given x; description = form_get "description" form }
  handle-report form s x e =
      ap (λ (a : Response × State). a.1)
        (handle_allowed sys (report form) s (report_allowed form s.client_ip)
          ∙ dispatch_report sys (report form) s refl refl)
      ∙ put_status_lem form s x e

  handle_read :
      (s : State)
      → s.client_ip ≡ some ip
      → (handle sys read_status s).0 ≡ reported s.status s.description
  unfolding handle is_allowed dispatch
  handle_read s e = rw e (rw (eq_refl ip))

  -- If the analyzer in the guest reports a status to an agent that is pinned to an address, and
  -- then only requests of other addresses come that are no reports, the agent answers a question
  -- from its address with that status and its description.
  pub read_status-report :
      (form : List (String × String)) (rs : List Request) (s : State) (x : String)
      → s.client_ip ≡ some ip
      → form_get "status" form ≡ some x
      → All IsRefused rs
      → (handle sys read_status (serve sys (report form ∷ rs) s)).0
        ≡ reported (given x) (form_get "description" form)
  unfolding serve
  read_status-report form rs s x pinned e h =
      let after = handle-report form s x e in
      let still : (handle sys (report form) s).1.client_ip ≡ some ip =
        ap (λ t. t.client_ip) after ∙ pinned in
      ap (λ t. (handle sys read_status t).0)
        (serve_refused rs (handle sys (report form) s).1 still h)
      ∙ handle_read (handle sys (report form) s).1 still
      ∙ ap (λ t. reported t.status t.description) after
