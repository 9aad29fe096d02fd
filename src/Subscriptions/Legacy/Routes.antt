-- ===== src/Subscriptions/Legacy/Routes.antt =====
-- What subscribing and unsubscribing do to a session's resources, and the bound on the routes.
use turbomcp.Prelude.{
  suc, ◌≤◌, ◌≡◌, ◌∙◌, sym, ap, refl, Bool, true, false, not, ◌&&◌, ◌||◌, String, Option, none, some,
  List, [], ◌∷◌, holds, keep_if, length, leb, ◌==◌, string_key, same_refl, arith, Option-cases,
  Bool-cases, inl, inr,
}
use turbomcp.Prelude.HashMap as Maps
use turbomcp.Prelude.HashMap.{HashMap, contains_key, IsDistinct, get-insert, get-remove}
use turbomcp.Prelude.HashMap.Laws.{
  insert-IsDistinct, length-insert, remove-IsDistinct, length-remove, length-remove-le,
  get-insert_self,
}
use turbomcp.Subscriptions.Legacy.{
  max_legacy_routes, LegacyRoute, Routes, evict_first, or_default, on_connection, legacy_touch, add,
  with_uri, without_uri, legacy_subscribe, legacy_unsubscribe, legacy_remove,
}

abbrev pub RoutesOk : Routes → Type 0
RoutesOk routes = IsDistinct routes × (length routes ≤ max_legacy_routes)

abbrev pub has_uri : String → Option LegacyRoute → Bool
has_uri uri none = false
has_uri uri (some r) = holds r.uris uri

-- Whether an update of a resource goes to a session.
unfoldable pub is_subscribed : String → String → Routes → Bool
is_subscribed session uri routes = has_uri uri (Maps.get session routes)

evict_first-room :
    (routes : Routes)
    → RoutesOk routes
    → IsDistinct (evict_first routes) × (suc (length (evict_first routes)) ≤ max_legacy_routes)
unfolding Maps.get
evict_first-room [] h = (tt, omega arith)
evict_first-room ((victim, r) ∷ rs) (d, bound) = (
  remove-IsDistinct victim ((victim, r) ∷ rs) d,
  ground (arith, bound, length-remove victim r ((victim, r) ∷ rs) d (rw (same_refl victim) refl)),
)

-- Writing the route of a session that has one, or in a table with room.
touch-RoutesOk :
    (session : String) (connection : Option String) (routes : Routes)
    → RoutesOk routes
    → RoutesOk (legacy_touch session connection routes)
unfolding legacy_touch
touch-RoutesOk session connection routes h =
    let put = λ (room : Routes). on_connection connection (or_default (Maps.get session room)) in
    elim (Bool-cases (not (contains_key session routes) && leb max_legacy_routes (length routes))) [
      | inl full ↦
          let room = evict_first routes in
          let small = evict_first-room routes h in
          rw (full, legacy_touch)
            (
              insert-IsDistinct session (put room) room small.0,
              ground (arith, small.1, length-insert session (put room) room),
            )
      | inr space ↦
          rw (space, legacy_touch)
            (
              insert-IsDistinct session (put routes) routes h.0,
              ground (arith, h.1, length-insert session (put routes) routes),
            )
    ]

-- The calls that the dispatcher makes on the routes.
pub data Call : Type 0 where
  touches : String → Option String → Call
  subscribes : String → Option String → String → Call
  unsubscribes : String → String → Call
  removes : String → Call

unfoldable pub step : Call → Routes → Routes
step (touches session connection) routes = legacy_touch session connection routes
step (subscribes session connection uri) routes = legacy_subscribe session connection uri routes
step (unsubscribes session uri) routes = legacy_unsubscribe session uri routes
step (removes session) routes = (legacy_remove session routes).0

unfoldable pub run : List Call → Routes → Routes
run [] routes = routes
run (c ∷ cs) routes = run cs (step c routes)

replace-RoutesOk :
    (session : String) (r r' : LegacyRoute) (routes : Routes)
    → Maps.get session routes ≡ some r
    → RoutesOk routes
    → RoutesOk (Maps.insert session r' routes)
replace-RoutesOk session r r' routes found h =
    (insert-IsDistinct session r' routes h.0, ground (arith, h.1, length-insert session r' routes))

step-RoutesOk : (c : Call) (routes : Routes) → RoutesOk routes → RoutesOk (step c routes)
unfolding step legacy_subscribe legacy_unsubscribe legacy_remove
step-RoutesOk (touches session connection) routes h = touch-RoutesOk session connection routes h
step-RoutesOk (subscribes session connection uri) routes h =
    let touched = legacy_touch session connection routes in
    elim (Option-cases (Maps.get session touched)) [
      | inl e ↦ rw (e, step, legacy_subscribe) (touch-RoutesOk session connection routes h)
      | inr (r, e) ↦
          rw (e, step, legacy_subscribe)
            (replace-RoutesOk session r (with_uri uri r) touched e
              (touch-RoutesOk session connection routes h))
    ]
step-RoutesOk (unsubscribes session uri) routes h = elim (Option-cases (Maps.get session routes)) [
  | inl e ↦ rw (e, step, legacy_unsubscribe) h
  | inr (r, e) ↦
      rw (e, step, legacy_unsubscribe) (replace-RoutesOk session r (without_uri uri r) routes e h)
]
step-RoutesOk (removes session) routes h =
    (remove-IsDistinct session routes h.0, ground (arith, h.1, length-remove-le session routes))

run-RoutesOk : (cs : List Call) (routes : Routes) → RoutesOk routes → RoutesOk (run cs routes)
unfolding run
run-RoutesOk [] routes h = h
run-RoutesOk (c ∷ cs) routes h = run-RoutesOk cs (step c routes) (step-RoutesOk c routes h)

-- After any sequence of touches, subscriptions, unsubscriptions and removals there are at most 4096
-- routes, one per session.
pub routes_bounded : (cs : List Call) → RoutesOk (run cs [])
routes_bounded cs = run-RoutesOk cs [] (tt, omega arith)

and_true : (b : Bool) → b ≡ (b && true)
and_true true = refl
and_true false = refl

uris-on_connection :
    (connection : Option String) (r : LegacyRoute) (uri : String)
    → holds (on_connection connection r).uris uri ≡ holds r.uris uri
uris-on_connection none r uri = refl
uris-on_connection (some conn) r uri = refl

absent-evict_first :
    (session : String) (routes : Routes)
    → Maps.get session routes ≡ none
    → Maps.get session (evict_first routes) ≡ none
absent-evict_first session [] h = h
absent-evict_first session ((victim, r) ∷ rs) h =
    ground (arith, get-remove victim session ((victim, r) ∷ rs))

has_uri-or_default :
    (uri : String) (o : Option LegacyRoute) → holds (or_default o).uris uri ≡ has_uri uri o
has_uri-or_default uri none = refl
has_uri-or_default uri (some r) = refl

-- The touch of a session keeps its resources.
subscribed-touch :
    (session : String) (connection : Option String) (uri : String) (routes : Routes)
    → has_uri uri (Maps.get session (legacy_touch session connection routes))
      ≡ has_uri uri (Maps.get session routes)
unfolding legacy_touch
subscribed-touch session connection uri routes =
    let put = λ (room : Routes). on_connection connection (or_default (Maps.get session room)) in
    let kept : (room : Routes)
        → has_uri uri (Maps.get session (Maps.insert session (put room) room))
          ≡ has_uri uri (Maps.get session room) =
      λ room.
        ap (has_uri uri) (get-insert_self session (put room) room)
        ∙ uris-on_connection connection (or_default (Maps.get session room)) uri
        ∙ has_uri-or_default uri (Maps.get session room) in
    elim (Bool-cases (not (contains_key session routes) && leb max_legacy_routes (length routes))) [
      | inr space ↦ rw (space, legacy_touch) (kept routes)
      | inl full ↦
          let absent : Maps.get session routes ≡ none =
            elim (Option-cases (Maps.get session routes)) [
              | inl e ↦ e
              | inr (r, e) ↦ ground arith
            ] in
          rw (full, legacy_touch)
            (kept (evict_first routes)
              ∙ ap (has_uri uri) (absent-evict_first session routes absent ∙ sym absent))
    ]

holds-add :
    (uri u : String) (uris : List String) → holds (add uri uris) u ≡ (holds uris u || u == uri)
holds-add uri u uris = elim (Bool-cases (u == uri)) [
  | inl same ↦
      let e = (string_key.same_iff u uri).0 same in
      ground (arith, ap (holds uris) e, string_key.same_iff uri u)
  | inr other ↦ ground (arith, string_key.same_iff uri u, string_key.same_iff u uri)
]

holds-erase :
    (uri u : String) (uris : List String)
    → holds (keep_if (λ x. not (x == uri)) uris) u ≡ (holds uris u && not (u == uri))
holds-erase uri u [] = refl
holds-erase uri u (x ∷ xs) = ground (
  arith,
  holds-erase uri u xs,
  string_key.same_iff x uri,
  string_key.same_iff x u,
  string_key.same_iff u uri,
)

touched_there :
    (session : String) (connection : Option String) (routes : Routes)
    → (r : LegacyRoute) × (Maps.get session (legacy_touch session connection routes) ≡ some r)
unfolding legacy_touch
touched_there session connection routes = (_, get-insert_self session _ _)

subscribe-adds :
    (session : String) (connection : Option String) (uri u : String) (routes : Routes)
    → is_subscribed session u (legacy_subscribe session connection uri routes)
      ≡ (is_subscribed session u routes || u == uri)
unfolding is_subscribed legacy_subscribe with_uri
subscribe-adds session connection uri u routes =
    let touched = legacy_touch session connection routes in
    let (r, there) = touched_there session connection routes in
    let before : holds r.uris u ≡ has_uri u (Maps.get session routes) =
      sym (ap (has_uri u) there) ∙ subscribed-touch session connection u routes in
    rw (there, legacy_subscribe)
      (ap (has_uri u) (get-insert_self session (with_uri uri r) touched)
        ∙ holds-add uri u r.uris
        ∙ ap (λ b. b || u == uri) before)

unsubscribe-erases :
    (session j uri u : String) (routes : Routes)
    → is_subscribed j u (legacy_unsubscribe session uri routes)
      ≡ (is_subscribed j u routes && not (j == session && u == uri))
unfolding is_subscribed legacy_unsubscribe without_uri
unsubscribe-erases session j uri u routes = elim (Option-cases (Maps.get session routes)) [
  | inl e ↦
      let outside : has_uri u (Maps.get j routes)
          ≡ (has_uri u (Maps.get j routes) && not (j == session && u == uri)) =
        elim (Bool-cases (j == session)) [
          | inl same ↦
              let at : Maps.get j routes ≡ none =
                ap (λ k. Maps.get k routes) ((string_key.same_iff j session).0 same) ∙ e in
              rw at refl
          | inr other ↦ rw other (and_true (has_uri u (Maps.get j routes)))
        ] in
      rw (e, legacy_unsubscribe) outside
  | inr (r, e) ↦
      let found = get-insert session j (without_uri uri r) routes in
      elim (Bool-cases (j == session)) [
        | inl same ↦
            let eq = (string_key.same_iff j session).0 same in
            let at : Maps.get j routes ≡ some r = ap (λ k. Maps.get k routes) eq ∙ e in
            let here : (session == j) ≡ true =
              ground (arith, string_key.same_iff session j, string_key.same_iff j session) in
            rw (e, legacy_unsubscribe)
              (rw found (rw (here, at) (rw same (holds-erase uri u r.uris))))
        | inr other ↦
            let apart : (session == j) ≡ false =
              ground (arith, string_key.same_iff session j, string_key.same_iff j session) in
            rw (e, legacy_unsubscribe)
              (rw found (rw (apart, other) (and_true (has_uri u (Maps.get j routes)))))
      ]
]

-- After a session subscribes to a resource it receives that resource's updates and those that it
-- received before, and no others. After a session unsubscribes from a resource, it no longer
-- receives that resource's updates, and nothing else changes for it or for another session.
pub subscription_lem :
    (session j : String) (connection : Option String) (uri u : String) (routes : Routes)
    → (is_subscribed session u (legacy_subscribe session connection uri routes)
        ≡ (is_subscribed session u routes || u == uri))
      × (is_subscribed j u (legacy_unsubscribe session uri routes)
          ≡ (is_subscribed j u routes && not (j == session && u == uri)))
subscription_lem session j connection uri u routes =
    (subscribe-adds session connection uri u routes, unsubscribe-erases session j uri u routes)
