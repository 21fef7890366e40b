-- ===== src/Agent/Server/Pinned.antt =====
-- agent/agent.py: whom the agent obeys once it is pinned to an address.
use capev.Base.{
  All, arith, Bool-cases, List, [], ◌∷◌, Option, none, some, String, str_eq, true, false, ◌≡◌, refl,
  inl, inr, ap, ◌∙◌, eq_iff,
}
use capev.Agent.Handlers.{
  do_pinning, get, post, Method, form_get, given, put_status, Request, require, State, System,
  success, dropped,
}
use capev.Agent.Server.{dispatch, handle, is_allowed, is_report, routes, same_method, serve}

module _ (sys : System) where
  -- What a request from another address than the pinned one leaves as it was.
  abbrev pub Untouched : State → State → Type 0
  Untouched s s' = (s'.actions ≡ s.actions) × (s'.client_ip ≡ s.client_ip)

  put_status-Untouched : (r : Request) (s : State) → Untouched s (put_status sys r s).1
  unfolding put_status
  put_status-Untouched r s = reply (form_get "status" r.form)
    where
      reply :
          (o : Option String)
          → Untouched s
              (require sys o "No status has been provided"
                (λ status t. (
                  success "Analysis status updated",
                  record t { status = given status; description = form_get "description" r.form },
                ))
                s).1
      reply none = (refl, refl)
      reply (some status) = (refl, refl)

  same_method-post : (m : Method) → same_method m post ≡ true → m ≡ post
  same_method-post get e = cc
  same_method-post post e = refl

  -- A report is dispatched to `put_status`.
  pub dispatch_report :
      (r : Request) (s : State)
      → r.path ≡ "/status"
      → r.method ≡ post
      → dispatch sys (routes sys) r s ≡ put_status sys r s
  unfolding dispatch
  dispatch_report r s p m = rw p (rw m refl)

  pub report-dispatch :
      (r : Request) (s : State)
      → is_report sys r ≡ true
      → dispatch sys (routes sys) r s ≡ put_status sys r s
  report-dispatch r s e =
      dispatch_report r s ((eq_iff r.path "/status").0 (ground (arith, e)))
        (same_method-post r.method (ground (arith, e)))

  pub handle_allowed :
      (r : Request) (s : State)
      → is_allowed sys s.client_ip r ≡ true
      → handle sys r s ≡ dispatch sys (routes sys) r s
  unfolding handle
  handle_allowed r s e = rw e

  pub handle_denied :
      (r : Request) (s : State)
      → is_allowed sys s.client_ip r ≡ false
      → handle sys r s ≡ (dropped, s)
  unfolding handle
  handle_denied r s e = rw e

  module _ (ip : String) where
    -- A request from another address.
    abbrev pub IsStranger : Request → Type 0
    IsStranger r = str_eq r.client_ip ip ≡ false

    -- Of a stranger's requests only a report is let through.
    pub stranger-allowed :
        (r : Request) (o : Option String)
        → o ≡ some ip
        → IsStranger r
        → is_allowed sys o r ≡ is_report sys r
    unfolding is_allowed
    stranger-allowed r o pinned other = rw pinned (rw other)

    handle-Untouched :
        (r : Request) (s : State)
        → s.client_ip ≡ some ip
        → IsStranger r
        → Untouched s (handle sys r s).1
    handle-Untouched r s pinned other = elim (Bool-cases (is_report sys r)) [
      | inl e ↦
          rw (handle_allowed r s (stranger-allowed r s.client_ip pinned other ∙ e))
            (rw (report-dispatch r s e) (put_status-Untouched r s))
      | inr e ↦
          rw (handle_denied r s (stranger-allowed r s.client_ip pinned other ∙ e)) (refl, refl)
    ]

    pub serve-Untouched :
        (rs : List Request) (s : State)
        → s.client_ip ≡ some ip
        → All IsStranger rs
        → Untouched s (serve sys rs s)
    unfolding serve
    serve-Untouched [] s pinned h = (refl, refl)
    serve-Untouched (r ∷ rs) s pinned h =
        let first = handle-Untouched r s pinned h.0 in
        let later = serve-Untouched rs (handle sys r s).1 (first.1 ∙ pinned) h.1 in
        (later.0 ∙ first.0, later.1 ∙ first.1)

  -- The request that pins the agent.
  abbrev pub pin_request : String → Request
  pin_request ip = record { method = get; path = "/pinning"; client_ip = ip; form = []; files = [] }

  handle_pinning :
      (ip : String) (s : State)
      → s.client_ip ≡ none
      → (handle sys (pin_request ip) s).1 ≡ record s { client_ip = some ip }
  unfolding handle is_allowed dispatch do_pinning
  handle_pinning ip s e = rw e refl

  -- An agent that is pinned to an address by a request does nothing on the guest and stays pinned
  -- to that address, whatever requests from other addresses follow.
  pub serve-pin :
      (ip : String) (s : State) (rs : List Request)
      → s.client_ip ≡ none
      → All (IsStranger ip) rs
      → ((serve sys (pin_request ip ∷ rs) s).actions ≡ s.actions)
        × ((serve sys (pin_request ip ∷ rs) s).client_ip ≡ some ip)
  unfolding serve
  serve-pin ip s rs e h =
      let pinned = handle_pinning ip s e in
      let later =
        serve-Untouched ip rs (handle sys (pin_request ip) s).1 (ap (λ t. t.client_ip) pinned) h in
      (later.0 ∙ ap (λ t. t.actions) pinned, later.1 ∙ ap (λ t. t.client_ip) pinned)
