-- ===== src/TcpIp/Route.antt =====
-- The routing table of FeatherOS/kernel/net/tcpip.c. The spinlock around each operation is left out.
pub mod Lookup
pub mod Change
mod Tests
use mathlib.Core.Path.{subst, fun_ext}
use mathlib.Core.Logic.{dite, ite}
use native.Mathlib.Nat.{
  add_comm, add_assoc, le_refl, le_trans, mod-eq_of_lt, mod-lt, mod-eq-sub-mod, mod-add-mod,
}
use native.Mathlib.Decide.{ℕ_discrete, dec_lt, dec_le}
use feather_os.Prelude.{
  ℕ, zero, suc, ◌+◌, ◌-◌, ◌*◌, ◌/◌, ◌%◌, ◌^◌, ◌≤◌, ◌<◌, min, max, ◌≡◌, refl, sym, ap, ◌∙◌, ◌≢◌, ◌↔◌,
  ◌⊎◌, inl, inr, Bool, true, false, not, ◌&&◌, ◌||◌, Option, none, some, List, [], ◌∷◌, ◌++◌, map,
  arith, ltb, leb, ◌==◌, if◌then◌else◌, ltb→lt, lt→ltb, leb→le, ==_iff, tests, Bool-cases,
  Option-cases, length, get_or, set, take, drop, replicate,
}
use Prim.Native.Nat.{bit_and}
use feather_os.Prelude.Int.{ℤ, pos, negsuc}
use feather_os.TcpIp.Address.{IpAddr, ip_addr_equal}

-- `dev` is a pointer, a number, and 0 is NULL.
pub record Route : Type 0 where
  pub network : IpAddr
  pub netmask : IpAddr
  pub gateway : IpAddr
  pub dev : ℕ
  pub metric : ℕ

abbrev pub max_routes : ℕ
max_routes = 32

abbrev pub zero_address : IpAddr
zero_address = record { b0 = 0; b1 = 0; b2 = 0; b3 = 0 }

abbrev pub zero_route : Route
zero_route = record {
  network = zero_address;
  netmask = zero_address;
  gateway = zero_address;
  dev = 0;
  metric = 0;
}

-- The static array and the number of its entries in use.
pub record RouteTable : Type 0 where
  pub routes : List Route
  pub route_count : ℕ

unfoldable pub route_init : RouteTable
route_init = record { routes = replicate max_routes zero_route; route_count = 0 }

abbrev pub route : RouteTable → ℕ → Route
route t i = get_or t.routes i zero_route

-- Where `gateway` is NULL the entry keeps the one that it had.
abbrev pub or_stale : Option IpAddr → IpAddr → IpAddr
or_stale none old = old
or_stale (some a) old = a

unfoldable pub route_add :
    Option IpAddr → Option IpAddr → Option IpAddr → ℕ → ℕ → RouteTable → RouteTable × ℤ
route_add (some network) (some netmask) gateway dev metric t =
    if leb max_routes t.route_count then (t, negsuc 0) else (
      record {
        routes = set t.routes t.route_count (record {
          network = network;
          netmask = netmask;
          gateway = or_stale gateway (route t t.route_count).gateway;
          dev = dev;
          metric = metric;
        });
        route_count = t.route_count + 1;
      },
      pos 0,
    )
route_add _ _ gateway dev metric t = (t, negsuc 0)

-- `for (int j = i; j < route_count - 1; j++) routes[j] = routes[j + 1];`, `rounds` left.
unfoldable pub shift_routes : ℕ → ℕ → List Route → List Route
shift_routes j zero routes = routes
shift_routes j (suc rounds) routes =
    shift_routes (j + 1) rounds (set routes j (get_or routes (j + 1) zero_route))

abbrev pub same_route : Option IpAddr → Option IpAddr → Route → Bool
same_route network netmask r =
    ip_addr_equal (some r.network) network && ip_addr_equal (some r.netmask) netmask

-- The loop of route_del from `i` on, `rounds` left.
unfoldable pub del_from : Option IpAddr → Option IpAddr → ℕ → ℕ → RouteTable → RouteTable × ℤ
del_from network netmask i zero t = (t, negsuc 0)
del_from network netmask i (suc rounds) t = elim (same_route network netmask (route t i)) [
  | true ↦ (
    record {
      routes = shift_routes i (t.route_count - 1 - i) t.routes;
      route_count = t.route_count - 1;
    },
    pos 0,
  )
  | false ↦ del_from network netmask (i + 1) rounds t
]

unfoldable pub route_del : Option IpAddr → Option IpAddr → RouteTable → RouteTable × ℤ
route_del network netmask t = del_from network netmask 0 t.route_count t

-- `while (mask) { len += mask & 1; mask >>= 1; }` on a byte: eight rounds are enough.
unfoldable pub count_bits : ℕ → ℕ → ℕ
count_bits zero mask = 0
count_bits (suc rounds) mask = mask % 2 + count_bits rounds (mask / 2)

unfoldable pub prefix_length : IpAddr → ℕ
prefix_length m = count_bits 8 m.b0 + count_bits 8 m.b1 + count_bits 8 m.b2 + count_bits 8 m.b3

unfoldable pub route_matches : IpAddr → Route → Bool
route_matches addr r =
    (bit_and addr.b0 r.netmask.b0 == r.network.b0)
    && (bit_and addr.b1 r.netmask.b1 == r.network.b1)
    && (bit_and addr.b2 r.netmask.b2 == r.network.b2)
    && (bit_and addr.b3 r.netmask.b3 == r.network.b3)

-- `len > best_len`, where `best_len` is -1 as long as `best` is NULL.
abbrev pub is_longer : ℕ → Option (ℕ × ℕ) → Bool
is_longer len none = true
is_longer len (some (i, best_len)) = ltb best_len len

-- The loop of route_lookup from `i` on, `rounds` left. `best` is the index and its prefix length.
unfoldable pub lookup_from : IpAddr → List Route → ℕ → ℕ → Option (ℕ × ℕ) → Option (ℕ × ℕ)
lookup_from addr routes i zero best = best
lookup_from addr routes i (suc rounds) best =
    let r = get_or routes i zero_route in
    let len = prefix_length r.netmask in
    lookup_from addr routes (i + 1) rounds
      (if route_matches addr r && is_longer len best then some (i, len) else best)

-- The index of the entry that the pointer answered points to, and `none` for NULL.
unfoldable pub route_lookup : Option IpAddr → RouteTable → Option ℕ
route_lookup none t = none
route_lookup (some addr) t = elim (lookup_from addr t.routes 0 t.route_count none) [
  | none ↦ none
  | some (i, len) ↦ some i
]

-- The result, and the values stored through `gateway` and `dev`.
pub route_lookup_gateway : Option IpAddr → RouteTable → Option (IpAddr × ℕ)
route_lookup_gateway addr t = elim (route_lookup addr t) [
  | none ↦ none
  | some i ↦ some ((route t i).gateway, (route t i).dev)
]
