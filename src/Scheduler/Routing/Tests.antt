-- ===== src/Scheduler/Routing/Tests.antt =====
-- The routes of one configuration with a VPN.
use capev.Base.{◌≡◌, refl, true, false, none, some, [], ◌∷◌, ◌++◌, map}
use capev.Scheduler.Routing.{
  text, number, flag, inetsim, enable_route, enable, drop, forward, srcroute, Network, Routes,
  route_network, unroute_network, select_route,
}
use capev.Scheduler.Routing.Undo.{inverse, forwarded, routed, unroute_network-route_network}

abbrev network : Network
network = record {
  route = "none";
  inetsim_interface = "virbr1";
  tor_interface = "virbr0";
  inetsim_server = text "192.168.1.2";
  inetsim_dnsport = number 53;
  inetsim_ports = text "";
  tor_dnsport = number 5353;
  tor_proxyport = number 9040;
  internet = "eth0";
  internet_table = "main";
  vpns = record { name = "vpn0"; interface = "tun0"; rt_table = "tun0" } ∷ [];
  socks5s = [];
  nic_available = λ i. true;
  verify_interface = false;
  is_interface = λ i. true;
  str = λ value. elim value [ text t ↦ t | number n ↦ "53" | flag b ↦ "yes" ];
  fails = λ c. false;
}

abbrev before : Routes
before = record { route = ""; interface = none; rt_table = none; sent = [] }

route_network-vpn :
    (route_network network (some "vpn0") before).1.sent
    ≡ enable (forward "tun0") ∷ enable (srcroute "tun0") ∷ []
unfolding route_network select_route
route_network-vpn = refl

-- A VPN whose interface is gone: the analysis goes on without a network.
route_network-vpn_gone :
    (route_network (record network { nic_available = λ i. false }) (some "vpn0") before).1.sent
    ≡ enable drop ∷ []
unfolding route_network select_route
route_network-vpn_gone = refl

-- Setting up and removing a route with InetSim.
abbrev chosen : Routes
chosen = (route_network network (some "inetsim") before).1

route_network-inetsim :
    chosen.sent
    ≡ enable (inetsim (text "192.168.1.2") (text "53") (text "")) ∷ enable (forward "virbr1") ∷ []
unfolding route_network select_route
route_network-inetsim = refl

unroute_network-route_network_example :
    let t = select_route network (some "inetsim") before in
    let own = enable_route network t.route in
    (chosen.sent ≡ own ++ (forwarded t ++ routed t))
    × ((unroute_network network chosen).1.sent
        ≡ chosen.sent ++ (map inverse (forwarded t) ++ (map inverse (routed t) ++ map inverse own)))
unroute_network-route_network_example =
    unroute_network-route_network network (some "inetsim") before refl (λ c. refl) refl refl
