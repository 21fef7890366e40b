-- ===== src/Scheduler/Routing/Undo.antt =====
-- `unroute_network` of lib/cuckoo/core/scheduler.py after `route_network`.
use capev.Base.{
  append_assoc, append_empty, ◌≡◌, refl, ap, sym, ◌∙◌, String, str_eq, false, Option, if◌then◌else◌,
  none, some, List, [], ◌∷◌, ◌++◌, map, arith, Bool, true, inl, inr, Bool-cases,
}
use capev.Scheduler.Exec.{Result, ok, Exec, continue, ◌>>◌}
use capev.Scheduler.Routing.{
  Rule, drop, socks5, Command, enable, disable, Network, Routes, enable_route, disable_route,
  if_set, send, verify, select_route, route_network, unroute_network, forward, srcroute, find_proxy,
  as_text, is_dropped, Proxy,
}

-- The command that takes back what a command does.
abbrev pub inverse : Command → Command
inverse (enable r) = disable r
inverse (disable r) = enable r

abbrev sending : Routes → List Command → Routes
sending s cs = record s { sent = s.sent ++ cs }

send_none_fails :
    (n : Network) (cs : List Command) (s : Routes)
    → ((c : Command) → n.fails c ≡ false)
    → send n cs s ≡ (ok tt, sending s cs)
unfolding send
send_none_fails n [] s h = ap (λ l. (ok tt, record s { sent = l })) (sym (append_empty s.sent))
send_none_fails n (c ∷ cs) s h = rw (h c) (
    send_none_fails n cs (sending s (c ∷ [])) h
    ∙ ap (λ l. (ok tt, record s { sent = l })) (append_assoc s.sent (c ∷ []) cs))

send-then :
    (n : Network) (cs : List Command) (k : Exec Routes (Unit {0})) (s : Routes)
    → ((c : Command) → n.fails c ≡ false)
    → (send n cs >> k) s ≡ k (sending s cs)
send-then n cs k s h = ap (λ r. continue r (λ _. k)) (send_none_fails n cs s h)

-- Three groups of commands, one after the other.
join_sent :
    (ks bs cs : List Command) (s : Routes)
    → ◌≡◌ {A = Result (Unit {0}) × Routes}
        (ok tt, sending (sending (sending s ks) bs) cs)
        (ok tt, sending s (ks ++ (bs ++ cs)))
join_sent ks bs cs s =
    ap (λ l. (ok tt, record s { sent = l }))
      (append_assoc (s.sent ++ ks) bs cs ∙ append_assoc s.sent ks (bs ++ cs))

verify-off :
    (n : Network) (o : Option String) (s : Routes)
    → n.verify_interface ≡ false
    → verify n o s ≡ (ok tt, s)
unfolding verify
verify-off n none s v = refl
verify-off n (some i) s v = rw v refl

-- The commands for the interface and the table of the chosen route, in their order.
abbrev pub forwarded : Routes → List Command
forwarded t = if_set (λ i. enable (forward i)) t.interface

abbrev pub routed : Routes → List Command
routed t = if_set (λ r. enable (srcroute r)) t.rt_table

route_network-sent :
    (n : Network) (task_route : Option String) (s : Routes)
    → ((c : Command) → n.fails c ≡ false)
    → n.verify_interface ≡ false
    → let t = select_route n task_route s in
      route_network n task_route s
      ≡ (ok tt, sending t (enable_route n t.route ++ (forwarded t ++ routed t)))
unfolding route_network
route_network-sent n task_route s h v =
    let t = select_route n task_route s in
    let rs = enable_route n t.route in
    let started = sending t rs in
    send-then n rs _ t h
    ∙ ap (λ r. continue r (λ _. send n (forwarded t) >> send n (routed t)))
        (verify-off n t.interface started v)
    ∙ send-then n (forwarded t) (send n (routed t)) started h
    ∙ send_none_fails n (routed t) (sending started (forwarded t)) h
    ∙ join_sent rs (forwarded t) (routed t) t

unroute_network-sent :
    (n : Network) (s : Routes)
    → ((c : Command) → n.fails c ≡ false)
    → unroute_network n s ≡ (
      ok tt,
      sending s (
          if_set (λ i. disable (forward i)) s.interface
          ++ (if_set (λ r. disable (srcroute r)) s.rt_table ++ disable_route n s.route)),
    )
unfolding unroute_network
unroute_network-sent n s h =
    let fs = if_set (λ i. disable (forward i)) s.interface in
    let ts = if_set (λ r. disable (srcroute r)) s.rt_table in
    let rs = disable_route n s.route in
    send-then n fs (send n ts >> send n rs) s h
    ∙ send-then n ts (send n rs) (sending s fs) h
    ∙ send_none_fails n rs (sending (sending s fs) ts) h
    ∙ join_sent fs ts rs s

select_route-sent :
    (n : Network) (task_route : Option String) (s : Routes)
    → (select_route n task_route s).sent ≡ s.sent
unfolding select_route
select_route-sent n task_route s = ground arith

-- The two methods find the route by the same tests, with the same arguments.
disable_route-inverse :
    (n : Network) (route : String)
    → as_text n n.inetsim_server ≡ n.inetsim_server
    → disable_route n route ≡ map inverse (enable_route n route)
unfolding disable_route enable_route
disable_route-inverse n route h = elim (Bool-cases (str_eq route "inetsim")) [
  | inl e ↦ rw (e, h) refl
  | inr e ↦ elim (Bool-cases (str_eq route "tor")) [
    | inl k ↦ rw (e, k) refl
    | inr k ↦ rw (e, k) (named (find_proxy route n.socks5s))
  ]
]
  where
    unnamed :
        (b : Bool)
        → (if b then disable drop ∷ [] else []) ≡ map inverse (if b then enable drop ∷ [] else [])
    unnamed true = refl
    unnamed false = refl

    named :
        (o : Option Proxy)
        → ◌≡◌ {A = List Command}
            (elim o [
              | some p ↦ disable (socks5 (as_text n p.dnsport) (as_text n p.port)) ∷ []
              | none ↦ if is_dropped route then disable drop ∷ [] else []
            ])
            (map inverse (elim o [
              | some p ↦ enable (socks5 (as_text n p.dnsport) (as_text n p.port)) ∷ []
              | none ↦ if is_dropped route then enable drop ∷ [] else []
            ]))
    named none = unnamed (is_dropped route)
    named (some p) = refl

if_set-inverse :
    (rule : String → Rule) (o : Option String)
    → if_set (λ x. disable (rule x)) o ≡ map inverse (if_set (λ x. enable (rule x)) o)
unfolding if_set
if_set-inverse rule none = refl
if_set-inverse rule (some x) = elim (Bool-cases (str_eq x "")) [
  | inl e ↦ rw e refl
  | inr e ↦ rw e refl
]

-- If no command was sent before, the rooter reports no exception, interfaces are not verified,
-- and the server of InetSim is configured as a text, then route_network sends the command of the
-- route, then those of the interface and the routing table, and unroute_network sends their
-- inverses with the same arguments, each once: first those of the interface and the table, then
-- that of the route.
pub unroute_network-route_network :
    (n : Network) (task_route : Option String) (s : Routes)
    → s.sent ≡ []
    → ((c : Command) → n.fails c ≡ false)
    → n.verify_interface ≡ false
    → as_text n n.inetsim_server ≡ n.inetsim_server
    → let t = select_route n task_route s in
      let own = enable_route n t.route in
      let r = (route_network n task_route s).1 in
      (r.sent ≡ own ++ (forwarded t ++ routed t))
      × ((unroute_network n r).1.sent
          ≡ r.sent ++ (map inverse (forwarded t) ++ (map inverse (routed t) ++ map inverse own)))
unroute_network-route_network n task_route s e h v server =
    let t = select_route n task_route s in
    let cs = enable_route n t.route ++ (forwarded t ++ routed t) in
    let w = sending t cs in
    let same : (route_network n task_route s).1 ≡ w =
      ap (λ r. r.1) (route_network-sent n task_route s h v) in
    let first : w.sent ≡ cs = ap (λ l. l ++ cs) (select_route-sent n task_route s ∙ e) in
    (
      ap (λ x. x.sent) same ∙ first,
      rw same (
          ap (λ r. r.1.sent) (unroute_network-sent n w h)
          ∙ rw
              (
                if_set-inverse forward t.interface,
                if_set-inverse srcroute t.rt_table,
                disable_route-inverse n t.route server,
              )
              refl),
    )
