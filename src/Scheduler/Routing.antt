-- ===== src/Scheduler/Routing.antt =====
-- `route_network` and `unroute_network` of lib/cuckoo/core/scheduler.py: the rules that the rooter
-- is asked to set up and to remove for the machine of an analysis.
pub mod Undo
mod Tests
use capev.Base.{
  ℕ, String, str_eq, Bool, true, false, not, ◌&&◌, ◌||◌, Option, none, some, List, [], ◌∷◌, ◌++◌,
  if◌then◌else◌, map,
}
use capev.Database.Sql.{truthy}
use capev.Scheduler.Exec.{
  Exc, critical_error, network_error, Result, ok, raised, Exec, pure, raise, gets, modify, ◌>>=◌,
  ◌>>◌,
}

-- A value of the configuration, as the parser of Config gives it.
pub data Setting : Type 0 where
  text : String → Setting
  number : ℕ → Setting
  flag : Bool → Setting

-- A rule with the arguments of its command; the machine and the port of the ResultServer, which are the
-- same for all, are left out. The server, the port for DNS and the ports of InetSim.
pub data Rule : Type 0 where
  inetsim : Setting → Setting → Setting → Rule
  drop : Rule
  socks5 : Setting → Setting → Rule
  forward srcroute : String → Rule

pub data Command : Type 0 where
  enable disable : Rule → Command

-- A VPN or a SOCKS5 proxy of the configuration.
pub record Vpn : Type 0 where
  pub name : String
  pub interface : String
  pub rt_table : String

pub record Proxy : Type 0 where
  pub name : String
  pub dnsport : Setting
  pub port : Setting

-- The configuration, and what the system and the rooter answer.
pub record Network : Type 0 where
  pub route : String
  pub inetsim_interface : String
  pub tor_interface : String
  pub inetsim_server : Setting
  pub inetsim_dnsport : Setting
  pub inetsim_ports : Setting
  pub tor_dnsport : Setting
  pub tor_proxyport : Setting
  pub internet : String
  pub internet_table : String
  pub vpns : List Vpn
  pub socks5s : List Proxy
  pub nic_available : String → Bool
  pub verify_interface : Bool
  pub is_interface : String → Bool
  -- `str` of a value
  pub str : Setting → String
  -- whether the rooter's response to a command has an exception
  pub fails : Command → Bool

-- The attributes of the analysis manager, and the commands that the rooter was sent so far.
pub record Routes : Type 0 where
  pub route : String
  pub interface : Option String
  pub rt_table : Option String
  pub sent : List Command

abbrev pub find_vpn : String → List Vpn → Option Vpn
find_vpn name [] = none
find_vpn name (v ∷ vs) = if str_eq v.name name then some v else find_vpn name vs

abbrev pub find_proxy : String → List Proxy → Option Proxy
find_proxy name [] = none
find_proxy name (p ∷ ps) = if str_eq p.name name then some p else find_proxy name ps

is_off : String → Bool
is_off r = str_eq r "none" || str_eq r "None" || str_eq r "drop" || str_eq r "false"

no_interface : Routes → Routes
no_interface s = record s { interface = none; rt_table = none }

-- The interface of a route that is a VPN, a proxy, or unknown.
choose_named : Option Vpn → Option Proxy → Routes → Routes
choose_named (some v) proxy s = record s {
  interface = some v.interface;
  rt_table = some v.rt_table;
}
choose_named none (some p) s = record s { interface = some "" }
choose_named none none s = no_interface s

-- The interface and the routing table of the route.
choose_interface : Network → Routes → Routes
choose_interface n s =
    if is_off s.route
    then no_interface s
    else if str_eq s.route "inetsim"
    then record s { interface = some n.inetsim_interface }
    else if str_eq s.route "tor"
    then record s { interface = some n.tor_interface }
    else if str_eq s.route "internet" && not (str_eq n.internet "none")
    then record s { interface = some n.internet; rt_table = some n.internet_table }
    else choose_named (find_vpn s.route n.vpns) (find_proxy s.route n.socks5s) s

-- `if self.interface and not rooter("nic_available", self.interface)`
check_nic : Network → Routes → Routes
check_nic n s = elim s.interface [
  | none ↦ s
  | some i ↦
      if not (str_eq i "") && not (n.nic_available i)
      then record s { route = "none"; interface = none; rt_table = none }
      else s
]

abbrev pub is_dropped : String → Bool
is_dropped route = str_eq route "none" || str_eq route "None" || str_eq route "drop"

-- `str(value)`, as an argument of a command.
abbrev pub as_text : Network → Setting → Setting
as_text n value = text (n.str value)

-- The command that `route_network` sends for the route itself.
unfoldable pub enable_route : Network → String → List Command
enable_route n route =
    if str_eq route "inetsim"
    then enable (
        inetsim (as_text n n.inetsim_server) (as_text n n.inetsim_dnsport)
          (as_text n n.inetsim_ports))
      ∷ []
    else if str_eq route "tor"
    then enable (socks5 (as_text n n.tor_dnsport) (as_text n n.tor_proxyport)) ∷ []
    else elim (find_proxy route n.socks5s) [
      | some p ↦ enable (socks5 (as_text n p.dnsport) (as_text n p.port)) ∷ []
      | none ↦ if is_dropped route then enable drop ∷ [] else []
    ]

-- The command of `unroute_network`, which passes the server of InetSim without `str`.
unfoldable pub disable_route : Network → String → List Command
disable_route n route =
    if str_eq route "inetsim"
    then disable
        (inetsim n.inetsim_server (as_text n n.inetsim_dnsport) (as_text n n.inetsim_ports))
      ∷ []
    else if str_eq route "tor"
    then disable (socks5 (as_text n n.tor_dnsport) (as_text n n.tor_proxyport)) ∷ []
    else elim (find_proxy route n.socks5s) [
      | some p ↦ disable (socks5 (as_text n p.dnsport) (as_text n p.port)) ∷ []
      | none ↦ if is_dropped route then disable drop ∷ [] else []
    ]

-- A command for an attribute, if it is set.
unfoldable pub if_set : (String → Command) → Option String → List Command
if_set command none = []
if_set command (some x) = if str_eq x "" then [] else command x ∷ []

-- Some commands, each with the check of the response.
send : Network → List Command → Exec Routes (Unit {0})
send n [] = pure tt
send n (c ∷ cs) =
    modify (λ s. record s { sent = s.sent ++ (c ∷ []) })
    >> ((if n.fails c then raise critical_error else pure tt) >> send n cs)

-- The interface must be up, if that is to be verified.
verify : Network → Option String → Exec Routes (Unit {0})
verify n none = pure tt
verify n (some i) =
    if n.verify_interface && not (str_eq i "") && not (n.is_interface i)
    then raise network_error
    else pure tt

unfoldable pub select_route : Network → Option String → Routes → Routes
unfolding choose_interface choose_named no_interface is_off check_nic
select_route n task_route s = check_nic n (
    choose_interface n (record s {
      route = (elim task_route [ none ↦ n.route | some r ↦ if str_eq r "" then n.route else r ]);
    }))

unfoldable pub route_network : Network → Option String → Exec Routes (Unit {0})
unfolding send verify enable_route if_set
route_network n task_route = do
  modify (select_route n task_route)
  route ← gets (λ s. s.route)
  interface ← gets (λ s. s.interface)
  rt_table ← gets (λ s. s.rt_table)
  send n (enable_route n route)
  verify n interface
  send n (if_set (λ i. enable (forward i)) interface)
  send n (if_set (λ t. enable (srcroute t)) rt_table)

unfoldable pub unroute_network : Network → Exec Routes (Unit {0})
unfolding send disable_route if_set
unroute_network n = do
  route ← gets (λ s. s.route)
  interface ← gets (λ s. s.interface)
  rt_table ← gets (λ s. s.rt_table)
  send n (if_set (λ i. disable (forward i)) interface)
  send n (if_set (λ t. disable (srcroute t)) rt_table)
  send n (disable_route n route)
