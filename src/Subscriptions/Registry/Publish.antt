-- ===== src/Subscriptions/Registry/Publish.antt =====
-- Who receives what `publish` sends, and which subscriptions it prunes.
use turbomcp.Prelude.{
  ℕ, ◌+◌, not, ◌==◌, map, ◌≡◌, ◌∙◌, ap, refl, Bool, true, false, ◌&&◌, String, Option, none, some,
  List, [], ◌∷◌, holds, arith, if◌then◌else◌, same_refl, string_key, pair_key, pair_same,
  Bool-cases, Option-cases, inl, inr,
}
use turbomcp.Prelude.HashMap as Maps
use turbomcp.Prelude.HashMap.{HashMap, IsDistinct, get-remove}
use turbomcp.Core.Json.{Json, member, ◌>>=◌}
use turbomcp.Core.JsonRpc.{RequestId, request_id_key, number, string}
use turbomcp.Prelude.Int.{ℤ}
use turbomcp.Subscriptions.Outbound.{Writers, writer}
use turbomcp.Subscriptions.Registry.{
  SubscriptionFilter, SubscriptionKey, SubscriptionRegistry, remove, targets,
  subscription_notification, Sent, deliver, publish,
}

module _ (is_open : ℕ → Bool) (table : Writers) where
  -- The writer that still reaches the connection of a subscription.
  unfoldable pub reached : SubscriptionKey → Option ℕ
  reached (connection, _) = elim (writer connection table) [
    | none ↦ none
    | some w ↦ if is_open w then some w else none
  ]

  abbrev pub is_lost : Option ℕ → Bool
  is_lost none = true
  is_lost (some _) = false

abbrev pub wanted : (SubscriptionFilter → Bool) → Option SubscriptionFilter → Bool
wanted p none = false
wanted p (some f) = p f

holds-targets :
    (p : SubscriptionFilter → Bool) (k : SubscriptionKey) (r : SubscriptionRegistry)
    → IsDistinct r
    → holds (targets p r) k ≡ wanted p (Maps.get k r)
unfolding targets Maps.get
holds-targets p k [] d = refl
holds-targets p k ((j, f) ∷ r) d =
    ground (arith, (pair_key {A = String} {B = RequestId}).same_iff j k, holds-targets p k r d.1)

-- How often a key is among the targets.
abbrev pub times : SubscriptionKey → List SubscriptionKey → ℕ
times k [] = 0
times k (j ∷ js) = if j == k then 1 + times k js else times k js

times-absent :
    (k : SubscriptionKey) (ks : List SubscriptionKey) → holds ks k ≡ false → times k ks ≡ 0
times-absent k [] h = refl
times-absent k (j ∷ ks) h = ground (arith, times-absent k ks)

times-targets :
    (p : SubscriptionFilter → Bool) (k : SubscriptionKey) (r : SubscriptionRegistry)
    → IsDistinct r
    → times k (targets p r) ≡ (if wanted p (Maps.get k r) then 1 else 0)
unfolding targets Maps.get
times-targets p k [] d = refl
times-targets p k ((j, f) ∷ r) d = ground (
  arith,
  (pair_key {A = String} {B = RequestId}).same_iff j k,
  times-targets p k r d.1,
  times-absent k (targets p r),
  holds-targets p k r d.1,
  d.0,
)

module _ (J : Json) (number_value : ℤ → J.Value) where
  open J use {Value}

  -- How the wire writes the id of a request.
  abbrev pub id_value : RequestId → Value
  id_value (number n) = number_value n
  id_value (string t) = J.string t

  -- An extra member that is not the `_meta`.
  abbrev pub beside_meta : Option (String × Value) → Bool
  beside_meta none = true
  beside_meta (some (k, _)) = not (k == "_meta")

  -- The writer, the method, the subscription that the `_meta` names, and the extra member.
  abbrev pub Told : Type 0
  Told = ℕ × String × Option Value × Option Value

  abbrev pub extra_of : Option (String × Value) → Option Value → Option Value
  extra_of none params = none
  extra_of (some (k, _)) params = params >>= member J k

  abbrev pub told : Option (String × Value) → Sent J number_value → Told
  told extra (w, n) = (
    w,
    n.method,
    n.params >>= member J "_meta" >>= member J "io.modelcontextprotocol/subscriptionId",
    extra_of extra n.params,
  )

  abbrev pub extra_value : Option (String × Value) → Option Value
  extra_value none = none
  extra_value (some (_, v)) = some v

  -- The subscription and the extra member of the parameters of a notification.
  said-params :
      (sub : Value) (k : String) (v : Value)
      → not (k == "_meta") ≡ true
      → let named = J.insert "io.modelcontextprotocol/subscriptionId" sub J.empty in
        let body = J.insert "_meta" (J.object named) J.empty in
        ((some (J.object body)
            >>= member J "_meta"
            >>= member J "io.modelcontextprotocol/subscriptionId")
          ≡ some sub)
        × ((some (J.object (J.insert k v body))
              >>= member J "_meta"
              >>= member J "io.modelcontextprotocol/subscriptionId")
            ≡ some sub)
        × ((some (J.object (J.insert k v body)) >>= member J k) ≡ some v)
  said-params sub k v h =
      let name : String = "io.modelcontextprotocol/subscriptionId" in
      let named = J.insert name sub J.empty in
      let body = J.insert "_meta" (J.object named) J.empty in
      let inner : (J.as_object (J.object named) >>= J.get name) ≡ some sub =
        rw (J.as_object-object named) (J.get-insert name name sub J.empty) in
      let there : J.get "_meta" body ≡ some (J.object named) =
        J.get-insert "_meta" "_meta" (J.object named) J.empty in
      let apart : (k == "_meta") ≡ false = ground (arith, h) in
      let still : J.get "_meta" (J.insert k v body) ≡ some (J.object named) =
        J.get-insert k "_meta" v body ∙ rw apart there in
      (
        rw (J.as_object-object body) (rw there inner),
        rw (J.as_object-object (J.insert k v body)) (rw still inner),
        rw (J.as_object-object (J.insert k v body))
            (J.get-insert k k v body ∙ rw (same_refl {K = String} k) refl),
      )

  told-subscription_notification :
      (w : ℕ) (note : String) (id : RequestId) (extra : Option (String × Value))
      → beside_meta extra ≡ true
      → told extra (w, subscription_notification J number_value note id extra)
        ≡ (w, note, some (id_value id), extra_value extra)
  unfolding subscription_notification
  told-subscription_notification w note (number n) none h =
      rw ((said-params (number_value n) "uri" J.null refl).0) refl
  told-subscription_notification w note (string t) none h =
      rw ((said-params (J.string t) "uri" J.null refl).0) refl
  told-subscription_notification w note (number n) (some (k, v)) h =
      let (_, a, b) = said-params (number_value n) k v h in rw (a, b) refl
  told-subscription_notification w note (string t) (some (k, v)) h =
      let (_, a, b) = said-params (J.string t) k v h in rw (a, b) refl

  -- One notification, with the id of its subscription, for each key that is reached.
  unfoldable pub notices :
      (ℕ → Bool)
      → Writers
      → String
      → Option (String × Value)
      → List SubscriptionKey
      → List (Sent J number_value)
  notices is_open table note extra [] = []
  notices is_open table note extra (k ∷ ks) =
      let rest = notices is_open table note extra ks in
      elim (reached is_open table k) [
        | none ↦ rest
        | some w ↦ (w, subscription_notification J number_value note k.1 extra) ∷ rest
      ]

  module _ (is_open : ℕ → Bool) (table : Writers) (note : String)
      (extra : Option (String × Value)) where
    sent-deliver :
        (ks : List SubscriptionKey) (r : SubscriptionRegistry)
        → (deliver J number_value is_open table note extra ks r).1
          ≡ notices is_open table note extra ks
    unfolding deliver notices reached
    sent-deliver [] r = refl
    sent-deliver ((connection, id) ∷ ks) r =
        ground (arith, sent-deliver ks r, sent-deliver ks (remove connection id r).0)

    get-deliver :
        (ks : List SubscriptionKey) (r : SubscriptionRegistry) (k : SubscriptionKey)
        → Maps.get k (deliver J number_value is_open table note extra ks r).0 ≡ (
            if holds ks k && is_lost is_open table (reached is_open table k)
            then none
            else Maps.get k r)
    unfolding deliver reached remove
    get-deliver [] r k = refl
    get-deliver ((connection, id) ∷ ks) r k =
        let head : SubscriptionKey = (connection, id) in
        let pruned = (remove connection id r).0 in
        elim (Bool-cases (pair_same {A = String} {B = RequestId} head k)) [
          | inl here ↦ rw (← ((pair_key {A = String} {B = RequestId}).same_iff head k).0 here) (
              ground (
                arith,
                same_refl {K = SubscriptionKey} head,
                get-deliver ks r head,
                get-deliver ks pruned head,
                get-remove {K = SubscriptionKey} head head r,
              ))
          | inr there ↦ ground (
            arith,
            get-deliver ks r k,
            get-deliver ks pruned k,
            get-remove {K = SubscriptionKey} head k r,
          )
        ]

    -- What the clients that are reached are told, one message for each key.
    abbrev pub announced : List SubscriptionKey → List Told
    announced [] = []
    announced (k ∷ ks) =
        let rest = announced ks in
        elim (reached is_open table k) [
          | none ↦ rest
          | some w ↦ (w, note, some (id_value k.1), extra_value extra) ∷ rest
        ]

    told-notices :
        (ks : List SubscriptionKey)
        → beside_meta extra ≡ true
        → map (told extra) (notices is_open table note extra ks) ≡ announced ks
    unfolding notices
    told-notices [] h = refl
    told-notices (k ∷ ks) h = elim (Option-cases (reached is_open table k)) [
      | inl e ↦ rw (e, notices, announced) (told-notices ks h)
      | inr (w, e) ↦
          rw (e, notices, announced)
            (rw (told-subscription_notification w note k.1 extra h) (rw (told-notices ks h) refl))
    ]

    -- In a registry with distinct keys, a publication whose extra member is not the `_meta` sends
    -- one message for each of its targets that is reached, and no other: with the method, the id of
    -- the subscription and the extra member. A subscription is a target exactly once if its filter
    -- wants the publication, and not at all otherwise. Afterwards exactly the subscriptions that
    -- want it and are not reached are gone, and every other is as before.
    pub publish_lem :
        (p : SubscriptionFilter → Bool) (r : SubscriptionRegistry)
        → IsDistinct r
        → beside_meta extra ≡ true
        → (map (told extra) (publish J number_value is_open table note extra p r).1
            ≡ announced (targets p r))
          × ((k : SubscriptionKey)
              → (times k (targets p r) ≡ (if wanted p (Maps.get k r) then 1 else 0))
                × (Maps.get k (publish J number_value is_open table note extra p r).0 ≡ (
                    if wanted p (Maps.get k r) && is_lost is_open table (reached is_open table k)
                    then none
                    else Maps.get k r)))
    unfolding publish
    publish_lem p r d h = (
      ap (map (told extra)) (sent-deliver (targets p r) r) ∙ told-notices (targets p r) h,
      λ k. (
        times-targets p k r d,
        get-deliver (targets p r) r k
            ∙ ap
                (λ b.
                  if b && is_lost is_open table (reached is_open table k)
                  then none
                  else Maps.get k r)
                (holds-targets p k r d),
      ),
    )
