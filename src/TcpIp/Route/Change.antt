-- ===== src/TcpIp/Route/Change.antt =====
-- What route_add and route_del change.
use mathlib.Core.Path.{subst}
use native.Mathlib.Decide.{ℕ_discrete}
use feather_os.Prelude.{
  ℕ, zero, suc, ◌+◌, ◌-◌, ◌≤◌, ◌<◌, ◌≡◌, refl, sym, ap, ◌∙◌, true, false, ◌&&◌, Option, some, List,
  arith, ltb, leb, if◌then◌else◌, length, get_or, set,
}
use feather_os.Prelude.Int.{pos}
use feather_os.Prelude.Arrays.{get_or-set, length-set}
use feather_os.TcpIp.Address.{IpAddr, ip_addr_equal}
use feather_os.TcpIp.Route.{
  Route, RouteTable, zero_route, max_routes, route, or_stale, route_add, shift_routes, same_route,
  del_from, route_del,
}

-- The array has its full size, and the entries in use fit.
pub record IsTable (t : RouteTable) : Type 0 where
  pub stored : length t.routes ≡ max_routes
  pub fits : t.route_count ≤ max_routes

shift_routes-get :
    (rounds j x : ℕ) (routes : List Route)
    → j + rounds < length routes
    → get_or (shift_routes j rounds routes) x zero_route ≡ (
        if leb j x && ltb x (j + rounds)
        then get_or routes (x + 1) zero_route
        else get_or routes x zero_route)
unfolding shift_routes
shift_routes-get zero j x routes fits = ground arith
shift_routes-get (suc rounds) j x routes fits =
    let moved = get_or routes (j + 1) zero_route in
    let size = length-set routes j moved in
    ground (
      arith,
      size,
      shift_routes-get rounds (j + 1) x (set routes j moved),
      get_or-set routes j x moved zero_route,
      get_or-set routes j (x + 1) moved zero_route,
    )

-- The table without its entry `i`.
abbrev pub without : RouteTable → ℕ → RouteTable
without t i = record {
  routes = shift_routes i (t.route_count - 1 - i) t.routes;
  route_count = t.route_count - 1;
}

del_from-found :
    (network netmask : Option IpAddr) (rounds i m : ℕ) (t : RouteTable)
    → i ≤ m
    → m < i + rounds
    → ((j : ℕ) → i ≤ j → j < m → same_route network netmask (route t j) ≡ false)
    → same_route network netmask (route t m) ≡ true
    → del_from network netmask i rounds t ≡ (without t m, pos 0)
unfolding del_from
del_from-found network netmask zero i m t lo hi before here = absurd (omega arith)
del_from-found network netmask (suc rounds) i m t lo hi before here = elim (ℕ_discrete i m) [
  | yes e ↦
      let now : same_route network netmask (route t i) ≡ true =
        subst (λ x. same_route network netmask (route t x) ≡ true) (sym e) here in
      rw (del_from, now) (ap (λ x. (without t x, pos 0)) e)
  | no ne ↦
      let on = before i (omega arith) (omega arith) in
      rw (del_from, on)
        (del_from-found network netmask rounds (i + 1) m t (omega arith) (omega arith)
          (λ j a b. before j (omega arith) b) here)
]

route_del-found :
    (network netmask : Option IpAddr) (i : ℕ) (t : RouteTable)
    → i < t.route_count
    → ((j : ℕ) → j < i → same_route network netmask (route t j) ≡ false)
    → same_route network netmask (route t i) ≡ true
    → route_del network netmask t ≡ (without t i, pos 0)
unfolding route_del
route_del-found network netmask i t lt before here =
    del_from-found network netmask t.route_count 0 i t (omega arith) (omega arith)
      (λ j a b. before j b) here

-- route_del takes the first entry in use with the network and the mask away: it answers 0, the
-- entries in use are one fewer, those before it stay, and those after it move down by one.
route_del_lem :
    (network netmask : Option IpAddr) (i x : ℕ) (t : RouteTable)
    → IsTable t
    → i < t.route_count
    → ((j : ℕ) → j < i → same_route network netmask (route t j) ≡ false)
    → same_route network netmask (route t i) ≡ true
    → x + 1 < t.route_count
    → ((route_del network netmask t).1 ≡ pos 0)
      × ((route_del network netmask t).0.route_count + 1 ≡ t.route_count)
      × (route (route_del network netmask t).0 x ≡ (if ltb x i then route t x else route t (x + 1)))
route_del_lem network netmask i x t v lt before here lx =
    let e = route_del-found network netmask i t lt before here in
    rw e (
      refl,
      omega arith,
      ground (arith, v.stored, v.fits, shift_routes-get (t.route_count - 1 - i) i x t.routes),
    )

same_route-add :
    (network netmask gateway : IpAddr) (dev metric : ℕ)
    → same_route (some network) (some netmask) (record {
      network = network;
      netmask = netmask;
      gateway = gateway;
      dev = dev;
      metric = metric;
    })
      ≡ true
unfolding ip_addr_equal
same_route-add network netmask gateway dev metric = ground arith

-- The table with an entry behind those in use.
abbrev with_entry : Route → RouteTable → RouteTable
with_entry r t = record { routes = set t.routes t.route_count r; route_count = t.route_count + 1 }

module _ (r : Route) (t : RouteTable) (v : IsTable t) (room : t.route_count < max_routes) where
  entry_before : (x : ℕ) → x < t.route_count → route (with_entry r t) x ≡ route t x
  entry_before x lx = ground (arith, get_or-set t.routes t.route_count x r zero_route)

  entry_last : route (with_entry r t) t.route_count ≡ r
  entry_last =
      ground (arith, get_or-set t.routes t.route_count t.route_count r zero_route, v.stored)

  length-with_entry : length (with_entry r t).routes ≡ max_routes
  length-with_entry = length-set t.routes t.route_count r ∙ v.stored

  without-with_entry :
      (x : ℕ) → x < t.route_count → route (without (with_entry r t) t.route_count) x ≡ route t x
  without-with_entry x lx = ground (
    arith,
    shift_routes-get ((t.route_count + 1) - 1 - t.route_count) t.route_count x
        (with_entry r t).routes,
    length-with_entry,
    entry_before x,
  )

  del-with_entry :
      (network netmask : Option IpAddr)
      → ((j : ℕ) → j < t.route_count → same_route network netmask (route t j) ≡ false)
      → same_route network netmask r ≡ true
      → route_del network netmask (with_entry r t) ≡ (without (with_entry r t) t.route_count, pos 0)
  del-with_entry network netmask fresh own =
      route_del-found network netmask t.route_count (with_entry r t) (omega arith)
        (λ j lt. ap (same_route network netmask) (entry_before j lt) ∙ fresh j lt)
        (ap (same_route network netmask) entry_last ∙ own)

-- On a table with room that has no entry in use for the network and the mask, route_add answers 0,
-- and route_del then answers 0 and leaves as many entries in use as before, each as it was.
route_del-add :
    (network netmask : IpAddr) (gateway : Option IpAddr) (dev metric x : ℕ) (t : RouteTable)
    → IsTable t
    → t.route_count < max_routes
    → ((j : ℕ) → j < t.route_count → same_route (some network) (some netmask) (route t j) ≡ false)
    → x < t.route_count
    → let added = route_add (some network) (some netmask) gateway dev metric t in
      let deleted = route_del (some network) (some netmask) added.0 in
      (added.1 ≡ pos 0)
      × (deleted.1 ≡ pos 0)
      × (deleted.0.route_count ≡ t.route_count)
      × (route deleted.0 x ≡ route t x)
unfolding route_add
route_del-add network netmask gateway dev metric x t v room fresh lx =
    let r : Route = record {
      network = network;
      netmask = netmask;
      gateway = or_stale gateway (route t t.route_count).gateway;
      dev = dev;
      metric = metric;
    } in
    let fits : leb max_routes t.route_count ≡ false = ground arith in
    let e =
      del-with_entry r t v room (some network) (some netmask) fresh
        (same_route-add network netmask r.gateway dev metric) in
    rw (fits, e) (refl, refl, omega arith, without-with_entry r t v room x lx)
