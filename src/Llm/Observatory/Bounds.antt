-- ===== src/Llm/Observatory/Bounds.antt =====
-- The observatory keeps a bounded number of routes and of entries
-- (src/jarvis_brain/llm/routing_observatory.py).
use jarvis_brain.Dict.{Dict, get, put, remove, values, keys}
use jarvis_brain.Llm.Observatory.{
  ActiveLlmRoute, RouteLifecycleState, Published, LlmRoutingObservatory, new_observatory, Selection,
  in_state, one_event, streamed, oldest, drop_oldest, make_room, new_route, route_selected, update,
  transition, delta_events, stream_delta, end_route, ended_route, terminal, Observation,
  request_received, classified, route_blocked, selects, connects, validates, streams, completes,
  fails, observe, observe_all,
}
use jarvis_brain.Prelude.{
  String, ℕ, ◌+◌, ◌≤◌, ◌<◌, ◌≡◌, refl, sym, ap, ◌∙◌, subst, inl, inr, true, Option, none, some, [],
  ◌∷◌, ◌++◌, arith, ltb, Bool-cases, ◌==◌, nat_eq, string_eq, pair_eq, length, All, length-last_n,
  contains, if-elim, List,
}

abbrev Routes : Type 0
Routes = Dict String ActiveLlmRoute

-- Each route stands at the ID of its request.
abbrev IsKeyed : Routes → Type 0
IsKeyed d = All (λ entry. entry.0 ≡ entry.1.request_id) d

put-IsKeyed :
    (d : Routes) (k : String) (r : ActiveLlmRoute)
    → IsKeyed d
    → k ≡ r.request_id
    → IsKeyed (put d k r)
unfolding put
put-IsKeyed [] k r h e = (e, tt)
put-IsKeyed ((j, w) ∷ d) k r h e =
    if-elim IsKeyed (j == k) _ _ (λ same. ((string_eq.beq_iff j k).0 same ∙ e, h.1))
      (λ other. (h.0, put-IsKeyed d k r h.1 e))

remove-IsKeyed : (d : Routes) (k : String) → IsKeyed d → IsKeyed (remove d k)
unfolding remove
remove-IsKeyed [] k h = tt
remove-IsKeyed ((j, w) ∷ d) k h =
    if-elim IsKeyed (j == k) _ _ (λ same. remove-IsKeyed d k h.1)
      (λ other. (h.0, remove-IsKeyed d k h.1))

length-put : (d : Routes) (k : String) (r : ActiveLlmRoute) → length (put d k r) ≤ length d + 1
unfolding put
length-put [] k r = omega arith
length-put ((j, w) ∷ d) k r = ground (arith, length-put d k r)

length-remove : (d : Routes) (k : String) → length (remove d k) ≤ length d
unfolding remove
length-remove [] k = omega arith
length-remove ((j, w) ∷ d) k = ground (arith, length-remove d k)

-- A key that is there is one entry.
length-remove_lt :
    (d : Routes) (k : String) → contains (keys d) k ≡ true → length (remove d k) < length d
unfolding remove contains
length-remove_lt [] k h = absurd (ground (arith, h))
length-remove_lt ((j, w) ∷ d) k h = elim (Bool-cases (j == k)) [
  | inl same ↦ ground (arith, length-remove d k, same)
  | inr other ↦ ground (arith, length-remove_lt d k (ground (arith, h, other)), other)
]

length-values : (d : Routes) → length (values d) ≡ length d
length-values [] = refl
length-values ((j, w) ∷ d) = omega (arith, length-values d)

oldest-All :
    (P : ActiveLlmRoute → Type 0) (r : ActiveLlmRoute) (rest : List ActiveLlmRoute)
    → All P (r ∷ rest)
    → P (oldest r rest)
unfolding oldest
oldest-All P r [] h = h.0
oldest-All P r (other ∷ rest) h =
    if-elim (λ (x : ActiveLlmRoute). P (oldest x rest)) (ltb other.started_at r.started_at) other r
      (λ older. oldest-All P other rest h.1) (λ kept. oldest-All P r rest (h.0, h.1.1))

-- Each route's ID is a key.
IsKeyed-keys :
    (ks : List String) (d : Routes)
    → IsKeyed d
    → ((k : String) → contains (keys d) k ≡ true → contains ks k ≡ true)
    → All (λ r. contains ks r.request_id ≡ true) (values d)
unfolding contains
IsKeyed-keys ks [] h sub = tt
IsKeyed-keys ks ((j, w) ∷ d) h sub = (
  sub w.request_id (ground (arith, (string_eq.beq_iff j w.request_id).1 h.0)),
  IsKeyed-keys ks d h.1 (λ k m. sub k (ground (arith, m))),
)

drop_oldest_short :
    (d : Routes) (vs : List ActiveLlmRoute)
    → vs ≡ values d
    → IsKeyed d
    → length d ≤ 65
    → length (drop_oldest d vs) ≤ 64
drop_oldest_short d [] e h short = omega (arith, length-values d, ap length e)
drop_oldest_short d (r ∷ rest) e h short =
    if-elim (λ (x : Routes). length x ≤ 64) (ltb 64 (length (r ∷ rest))) _ _
      (λ full.
        let here =
          oldest-All (λ x. contains (keys d) x.request_id ≡ true) r rest
            (subst (All (λ x. contains (keys d) x.request_id ≡ true)) (sym e)
              (IsKeyed-keys (keys d) d h (λ k m. m))) in
        omega (arith, length-remove_lt d (oldest r rest).request_id here, short))
      (λ room. ground (arith, room, length-values d, ap length e))

drop_oldest-IsKeyed :
    (d : Routes) (vs : List ActiveLlmRoute) → IsKeyed d → IsKeyed (drop_oldest d vs)
drop_oldest-IsKeyed d [] h = h
drop_oldest-IsKeyed d (r ∷ rest) h =
    if-elim IsKeyed (ltb 64 (length (r ∷ rest))) _ _
      (λ full. remove-IsKeyed d (oldest r rest).request_id h) (λ room. h)

pub record IsBounded (o : LlmRoutingObservatory) : Type 0 where
  pub keyed : IsKeyed o.routes
  pub few_routes : length o.routes ≤ 64
  pub few_entries : length o.history ≤ o.history_limit
  pub limited : o.history_limit ≤ 50

-- An update of a route that is there, where the key keeps its place.
length-put_there :
    (d : Routes) (k : String) (r w : ActiveLlmRoute)
    → get d k ≡ some w
    → length (put d k r) ≡ length d
unfolding put get
length-put_there [] k r w e = absurd (ground (arith, e))
length-put_there ((j, v) ∷ d) k r w e = elim (Bool-cases (j == k)) [
  | inl same ↦ ground (arith, same)
  | inr other ↦ ground (arith, length-put_there d k r w (ground (arith, e, other)), other)
]

get-IsKeyed :
    (d : Routes) (k : String) (w : ActiveLlmRoute) → IsKeyed d → get d k ≡ some w → k ≡ w.request_id
unfolding get
get-IsKeyed [] k w h e = absurd (ground (arith, e))
get-IsKeyed ((j, v) ∷ d) k w h e = elim (Bool-cases (j == k)) [
  | inl same ↦
      let at : v ≡ w = ground (arith, e, same) in
      sym ((string_eq.beq_iff j k).0 same) ∙ h.0 ∙ ap {A = ActiveLlmRoute} (λ x. x.request_id) at
  | inr other ↦ get-IsKeyed d k w h.1 (ground (arith, e, other))
]

update-IsBounded :
    (request_id : String) (change : ActiveLlmRoute → ActiveLlmRoute)
    (events : ActiveLlmRoute → List Published) (o : LlmRoutingObservatory)
    (found : Option ActiveLlmRoute)
    → get o.routes request_id ≡ found
    → ((r : ActiveLlmRoute) → (change r).request_id ≡ r.request_id)
    → IsBounded o
    → IsBounded (update request_id change events o found).0
update-IsBounded request_id change events o none e same h = h
update-IsBounded request_id change events o (some route) e same h = record {
  keyed =
      put-IsKeyed o.routes request_id (change route) h.keyed
        (get-IsKeyed o.routes request_id route h.keyed e ∙ sym (same route));
  few_routes =
      omega (arith, h.few_routes, length-put_there o.routes request_id (change route) route e);
  few_entries = h.few_entries;
  limited = h.limited;
}

end_route-IsBounded :
    (now : ℕ) (request_id : String) (state : RouteLifecycleState) (event_type : String)
    (safe_reason : Option String) (o : LlmRoutingObservatory) (found : Option ActiveLlmRoute)
    → get o.routes request_id ≡ found
    → IsBounded o
    → IsBounded (end_route now request_id state event_type safe_reason o found).0
end_route-IsBounded now request_id state event_type safe_reason o none e h = h
end_route-IsBounded now request_id state event_type safe_reason o (some route) e h = record {
  keyed =
      put-IsKeyed o.routes request_id (ended_route now state route) h.keyed
        (get-IsKeyed o.routes request_id route h.keyed e);
  few_routes = omega (
    arith,
    h.few_routes,
    length-put_there o.routes request_id (ended_route now state route) route e,
  );
  few_entries = omega (arith, length-last_n o.history_limit (o.history ++ _ ∷ []));
  limited = h.limited;
}

module _ (quote : String → String) where
  route_selected-IsBounded :
      (now : ℕ) (request_id : String) (s : Selection) (o : LlmRoutingObservatory)
      → IsBounded o
      → IsBounded (route_selected quote now request_id s o).0
  unfolding route_selected make_room
  route_selected-IsBounded now request_id s o h =
      let route = new_route quote now request_id s in
      let routes = put o.routes request_id route in
      let keyed = put-IsKeyed o.routes request_id route h.keyed refl in
      record {
        keyed = drop_oldest-IsKeyed routes (values routes) keyed;
        few_routes =
            drop_oldest_short routes (values routes) refl keyed
              (omega (arith, length-put o.routes request_id route, h.few_routes));
        few_entries = h.few_entries;
        limited = h.limited;
      }

  observe-IsBounded :
      (call : Observation) (o : LlmRoutingObservatory)
      → IsBounded o
      → IsBounded (observe quote call o).0
  unfolding observe transition stream_delta terminal
  observe-IsBounded request_received o h = h
  observe-IsBounded classified o h = h
  observe-IsBounded route_blocked o h = h
  observe-IsBounded (selects now id s) o h = route_selected-IsBounded now id s o h
  observe-IsBounded (connects id) o h =
      update-IsBounded id (in_state RouteLifecycleState.connecting)
        (one_event "llm.route.connecting") o (get o.routes id) refl (λ r. refl) h
  observe-IsBounded (validates id) o h =
      update-IsBounded id (in_state RouteLifecycleState.validating)
        (one_event "llm.stream.completed") o (get o.routes id) refl (λ r. refl) h
  observe-IsBounded (streams now id n) o h =
      update-IsBounded id (streamed now n) (delta_events n) o (get o.routes id) refl (λ r. refl) h
  observe-IsBounded (completes now id) o h =
      end_route-IsBounded now id RouteLifecycleState.completed "llm.route.completed" none o
        (get o.routes id) refl h
  observe-IsBounded (fails now id reason) o h =
      end_route-IsBounded now id RouteLifecycleState.failed "llm.route.failed" (some reason) o
        (get o.routes id) refl h

  observe_all-IsBounded :
      (calls : List Observation) (o : LlmRoutingObservatory)
      → IsBounded o
      → IsBounded (observe_all quote calls o)
  unfolding observe_all
  observe_all-IsBounded [] o h = h
  observe_all-IsBounded (call ∷ calls) o h =
      observe_all-IsBounded calls (observe quote call o).0 (observe-IsBounded call o h)

  -- Whatever the calls, their order and the limit that is asked for, the observatory keeps at most 64
  -- routes, each at the ID of its request, and a history no longer than its limit, which is at most 50.
  pub fresh_observatory-IsBounded :
      (limit : ℕ) (calls : List Observation)
      → IsBounded (observe_all quote calls (new_observatory limit))
  unfolding new_observatory
  fresh_observatory-IsBounded limit calls =
      observe_all-IsBounded calls (new_observatory limit) (record {
        keyed = tt;
        few_routes = omega arith;
        few_entries = omega arith;
        limited = omega arith;
      })
