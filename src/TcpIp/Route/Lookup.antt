-- ===== src/TcpIp/Route/Lookup.antt =====
-- route_lookup as a search for the longest prefix.
use mathlib.Core.Path.{subst}
use native.Mathlib.Decide.{dec_lt}
use feather_os.Prelude.{
  ℕ, zero, suc, ◌+◌, ◌≤◌, ◌<◌, ◌≡◌, refl, inl, inr, Bool, true, false, ◌&&◌, Option, none, some,
  List, arith, ltb, if◌then◌else◌, Bool-cases, get_or,
}
use feather_os.TcpIp.Address.{IpAddr}
use feather_os.TcpIp.Route.{
  Route, RouteTable, zero_route, route, prefix_length, route_matches, is_longer, lookup_from,
  route_lookup,
}

below_suc : (P : ℕ → Type 0) (n : ℕ) → ((j : ℕ) → j < n → P j) → P n → (j : ℕ) → j < n + 1 → P j
below_suc P n all here j lt = elim (dec_lt j n) [
  | yes less ↦ all j less
  | no not_less ↦ subst P (omega arith) here
]

-- A search through numbered entries for the first of the longest good ones.
module _ (good : ℕ → Bool) (len : ℕ → ℕ) where
  -- The entry `i` is the best of the first `n`.
  pub record IsBest (n i : ℕ) : Type 0 where
    pub below : i < n
    pub matching : good i ≡ true
    pub longest : (j : ℕ) → j < n → good j ≡ true → len j ≤ len i
    pub first : (j : ℕ) → j < i → good j ≡ true → len j < len i

  -- What the search has found after `n` rounds.
  abbrev pub Found : ℕ → Option (ℕ × ℕ) → Type 0
  Found n none = (j : ℕ) → j < n → good j ≡ false
  Found n (some (i, best_len)) = IsBest n i × (best_len ≡ len i)

  abbrev pub next_best : ℕ → Option (ℕ × ℕ) → Option (ℕ × ℕ)
  next_best i best = if good i && is_longer (len i) best then some (i, len i) else best

  next_best-Found :
      (n : ℕ) (best : Option (ℕ × ℕ)) → Found n best → Found (n + 1) (next_best n best)
  next_best-Found n none f = elim (Bool-cases (good n)) [
    | inl m ↦ rw m (
      record {
        below = omega arith;
        matching = m;
        longest =
            below_suc (λ j. good j ≡ true → len j ≤ len n) n (λ j lt g. absurd (cc (f j lt, g)))
              (λ g. omega arith);
        first = λ j lt g. absurd (cc (f j lt, g));
      },
      refl,
    )
    | inr miss ↦ rw miss (below_suc (λ j. good j ≡ false) n f miss)
  ]
  next_best-Found n (some (i, best_len)) (b, e) =
      elim (Bool-cases (good n && ltb best_len (len n))) [
        | inl better ↦ rw better (
          record {
            below = omega arith;
            matching = ground (arith, better);
            longest =
                below_suc (λ j. good j ≡ true → len j ≤ len n) n
                  (λ j lt g. let old = b.longest j lt g in ground (arith, better, old, e))
                  (λ g. omega arith);
            first = λ j lt g. let old = b.longest j lt g in ground (arith, better, old, e);
          },
          refl,
        )
        | inr worse ↦ rw worse (
          record {
            below = omega (arith, b.below);
            matching = b.matching;
            longest =
                below_suc (λ j. good j ≡ true → len j ≤ len i) n b.longest
                  (λ g. ground (arith, worse, g, e));
            first = b.first;
          },
          e,
        )
      ]

module _ (addr : IpAddr) (routes : List Route) where
  abbrev pub matches_at : ℕ → Bool
  matches_at i = route_matches addr (get_or routes i zero_route)

  abbrev pub length_at : ℕ → ℕ
  length_at i = prefix_length (get_or routes i zero_route).netmask

  lookup_from-Found :
      (rounds i : ℕ) (best : Option (ℕ × ℕ))
      → Found matches_at length_at i best
      → Found matches_at length_at (i + rounds) (lookup_from addr routes i rounds best)
  unfolding lookup_from
  lookup_from-Found zero i best f = subst (λ k. Found matches_at length_at k best) (omega arith) f
  lookup_from-Found (suc rounds) i best f =
      subst (λ k. Found matches_at length_at k (lookup_from addr routes i (suc rounds) best))
        (omega arith)
        (lookup_from-Found rounds (i + 1) (next_best matches_at length_at i best)
          (next_best-Found matches_at length_at i best f))

-- What route_lookup answers for an address: the entry.
abbrev pub Answered : IpAddr → RouteTable → Option ℕ → Type 0
Answered addr t none = (j : ℕ) → j < t.route_count → route_matches addr (route t j) ≡ false
Answered addr t (some i) =
    IsBest (matches_at addr t.routes) (length_at addr t.routes) t.route_count i

-- route_lookup answers an entry in use that matches the address, none of the entries in use that
-- match has a longer prefix and none before it one as long; where no entry in use matches, it
-- answers NULL.
pub route_lookup_lem :
    (addr : IpAddr) (t : RouteTable) → Answered addr t (route_lookup (some addr) t)
unfolding route_lookup
route_lookup_lem addr t = go (lookup_from addr t.routes 0 t.route_count none) (
    subst
      (λ n.
        Found (matches_at addr t.routes) (length_at addr t.routes) n
          (lookup_from addr t.routes 0 t.route_count none))
      (omega arith)
      (lookup_from-Found addr t.routes t.route_count 0 none (λ j lt. absurd (omega arith))))
  where
    go :
        (best : Option (ℕ × ℕ))
        → Found (matches_at addr t.routes) (length_at addr t.routes) t.route_count best
        → Answered addr t (elim best [ none ↦ none | some (i, len) ↦ some i ])
    go none f = f
    go (some (i, len)) f = f.0
