-- ===== src/OmniRoute/Circuit/Ownership.antt =====
-- One breaker for each route (`GatewayCircuitRegistry` of
-- src/jarvis_brain/llm/omniroute/circuit.py).
use jarvis_brain.Dict.{get, put, get-put}
use jarvis_brain.OmniRoute.Circuit.{
  GatewayCircuitBreaker, GatewayCircuitRegistry, for_route, new_breaker,
}
use jarvis_brain.Prelude.{
  ℕ, String, ◌≡◌, ◌∙◌, ◌≢◌, some, arith, if◌then◌else◌, ◌==◌, nat_eq, string_eq, pair_eq, get_or,
  eq_iff, eq_refl,
}

-- What a caller of `for_route` does to the breaker that it is given, as a write to the registry.
unfoldable pub at_route :
    String
    → ℕ
    → ℕ
    → (GatewayCircuitBreaker → GatewayCircuitBreaker)
    → GatewayCircuitRegistry
    → GatewayCircuitRegistry
unfolding for_route
at_route route threshold recovery op circuits =
    let (circuit, circuits') = for_route route threshold recovery circuits in
    put circuits' route (op circuit)

-- What a caller finds at a route, and the registry beside it.
for_route_found :
    (route : String) (threshold recovery : ℕ) (circuits : GatewayCircuitRegistry)
    → (for_route route threshold recovery circuits).0
      ≡ get_or (get circuits route) (new_breaker threshold recovery)
unfolding for_route
for_route_found route threshold recovery circuits = ground arith

for_route_kept :
    (route : String) (threshold recovery : ℕ) (circuits : GatewayCircuitRegistry)
    {circuit : GatewayCircuitBreaker}
    → get circuits route ≡ some circuit
    → for_route route threshold recovery circuits ≡ (circuit, circuits)
unfolding for_route
for_route_kept route threshold recovery circuits e = rw (e, for_route)

module _ (route : String) (threshold recovery : ℕ) (circuits : GatewayCircuitRegistry) where
  get-for_route :
      (j : String)
      → get (for_route route threshold recovery circuits).1 j ≡ (
          if route == j
          then some (for_route route threshold recovery circuits).0
          else get circuits j)
  unfolding for_route
  get-for_route j =
      ground (arith, get-put circuits route j (new_breaker threshold recovery), eq_iff route j)

  get-at_route :
      (op : GatewayCircuitBreaker → GatewayCircuitBreaker) (j : String)
      → get (at_route route threshold recovery op circuits) j ≡ (
          if route == j
          then some (op (for_route route threshold recovery circuits).0)
          else get circuits j)
  unfolding at_route
  get-at_route op j = ground (
    arith,
    get-for_route j,
    get-put (for_route route threshold recovery circuits).1 route j
        (op (for_route route threshold recovery circuits).0),
  )

  -- The first caller fixes a route's breaker: any later call for the route, with whatever settings,
  -- gets the breaker that the first left there and changes nothing.
  pub for_route_owner :
      (op : GatewayCircuitBreaker → GatewayCircuitBreaker) (threshold' recovery' : ℕ)
      → for_route route threshold' recovery' (at_route route threshold recovery op circuits) ≡ (
        op (for_route route threshold recovery circuits).0,
        at_route route threshold recovery op circuits,
      )
  for_route_owner op threshold' recovery' =
      for_route_kept route threshold' recovery' _ (get-at_route op route ∙ rw eq_refl)

  -- Nothing that is done to the breaker of one route shows at another route.
  pub for_route_ne :
      (op : GatewayCircuitBreaker → GatewayCircuitBreaker) (other : String)
      (threshold' recovery' : ℕ)
      → route ≢ other
      → (for_route other threshold' recovery' (at_route route threshold recovery op circuits)).0
        ≡ (for_route other threshold' recovery' circuits).0
  for_route_ne op other threshold' recovery' ne =
      simp for_route_found (ground (arith, get-at_route op other, eq_iff route other))
