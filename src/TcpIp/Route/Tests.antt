-- ===== src/TcpIp/Route/Tests.antt =====
-- A table with a default route and a route of 24 bits, and the theorems at it.
use feather_os.Prelude.{ℕ, zero, suc, ◌<◌, ◌≡◌, refl, false, some, ◌∷◌, arith, replicate}
use feather_os.TcpIp.Address.{IpAddr, ip_addr_equal}
use feather_os.TcpIp.Route.{
  Route, RouteTable, zero_address, zero_route, route, same_route, route_lookup, lookup_from,
  route_matches, prefix_length, count_bits,
}
use feather_os.TcpIp.Route.Lookup.{Answered, route_lookup_lem}
use feather_os.TcpIp.Route.Change.{IsTable}

abbrev local : Route
local = record {
  network = record { b0 = 10; b1 = 0; b2 = 2; b3 = 0 };
  netmask = record { b0 = 255; b1 = 255; b2 = 255; b3 = 0 };
  gateway = zero_address;
  dev = 7;
  metric = 1;
}

abbrev table : RouteTable
table = record { routes = zero_route ∷ local ∷ replicate 30 zero_route; route_count = 2 }

abbrev host : IpAddr
host = record { b0 = 10; b1 = 0; b2 = 2; b3 = 15 }

-- The longer prefix wins.
finds_local : route_lookup (some host) table ≡ some 1
unfolding route_lookup lookup_from route_matches prefix_length count_bits
finds_local = refl

table-IsTable : IsTable table
table-IsTable = record { stored = refl; fits = omega arith }

route_lookup_example : Answered host table (route_lookup (some host) table)
route_lookup_example = route_lookup_lem host table

abbrev network : IpAddr
network = record { b0 = 192; b1 = 168; b2 = 0; b3 = 0 }

fresh : (j : ℕ) → j < 2 → same_route (some network) (some local.netmask) (route table j) ≡ false
unfolding ip_addr_equal
fresh zero lt = refl
fresh (suc zero) lt = refl
fresh (suc (suc j)) lt = absurd (omega arith)
