-- ===== src/Core/Meta/Laws.antt =====
-- The trust boundary of `_meta`: what a peer can and cannot assert, and what is propagated.
use turbomcp.Prelude.{
  ◌≡◌, refl, ◌∙◌, Bool, true, false, Option, none, some, String, [], ◌∷◌, ◌==◌, string_key,
  if◌then◌else◌, arith, same_refl, Bool-cases, inl, inr,
}
use turbomcp.Prelude.HashMap.{HashMap}
use turbomcp.Prelude.HashMap as Maps
use turbomcp.Core.Json.{Json, ◌>>=◌, member}
use turbomcp.Core.JsonRpc.{JsonRpcMessage}
use turbomcp.Core.JsonRpc
use turbomcp.Core.Meta.{
  is_internal_key, is_framework_key, partition, partition_from, set_params_meta, set_request_meta,
  sanitize_params, sanitize_inbound, meta_text, session_id, connection_id, session_id_key,
  connection_id_key,
}

module _ (J : Json) where
  open J use {
    Value, Object, string, object, as_str, as_object, empty, get, insert, retain, entries,
    as_str-string, as_object-object, get-empty, get-insert, get-retain,
  }

  -- The parameters that a message carries.
  abbrev pub params_of : JsonRpcMessage Value → Option Value
  params_of (JsonRpc.request r) = r.params
  params_of (JsonRpc.notification n) = n.params
  params_of (JsonRpc.response r) = none

  -- The parameters can hold a `_meta` key: they are absent or an object, and so is its `_meta`.
  abbrev pub can_hold_meta : Option Value → Bool
  can_hold_meta none = true
  can_hold_meta (some p) = elim (as_object p) [
    | none ↦ false
    | some obj ↦ elim (get "_meta" obj) [
      | none ↦ true
      | some m ↦ elim (as_object m) [ none ↦ false | some _ ↦ true ]
    ]
  ]

  meta_text-sanitize :
      (key : String) (params : Option Value)
      → meta_text J key (sanitize_params J params)
        ≡ (if is_internal_key key then none else meta_text J key params)
  unfolding meta_text sanitize_params
  meta_text-sanitize key none = ground arith
  meta_text-sanitize key (some p) =
      grind (arith, as_object-object, get-insert, get-retain, same_refl {K = String} "_meta")

  meta_text-set :
      (key c t : String) (params : Option Value)
      → meta_text J key (set_params_meta J c (string t) params) ≡ (
          if c == key
          then (if can_hold_meta params then some t else none)
          else meta_text J key params)
  unfolding meta_text set_params_meta
  meta_text-set key c t none = grind (
    arith,
    as_object-object,
    get-insert,
    get-empty,
    as_str-string,
    same_refl {K = String} "_meta",
  )
  meta_text-set key c t (some p) = grind (
    arith,
    as_object-object,
    get-insert,
    get-empty,
    as_str-string,
    same_refl {K = String} "_meta",
  )

  can_hold_meta-sanitize :
      (params : Option Value) → can_hold_meta (sanitize_params J params) ≡ can_hold_meta params
  unfolding sanitize_params
  can_hold_meta-sanitize none = refl
  can_hold_meta-sanitize (some p) = grind (arith, as_object-object, get-insert)

  abbrev pub top_member : String → Option Value → Option Value
  top_member k params = params >>= member J k

  -- Whatever value a message has under a key of its `_meta`.
  abbrev pub meta_value : String → Option Value → Option Value
  meta_value key params = params >>= member J "_meta" >>= member J key

  abbrev pub without_params : JsonRpcMessage Value → JsonRpcMessage Value
  without_params (JsonRpc.request r) = JsonRpc.request (record r { params = none })
  without_params (JsonRpc.notification n) = JsonRpc.notification (record n { params = none })
  without_params (JsonRpc.response r) = JsonRpc.response r

  -- A message into which a transport can write `_meta` keys.
  abbrev pub accepts_meta : JsonRpcMessage Value → Bool
  accepts_meta (JsonRpc.request r) = can_hold_meta r.params
  accepts_meta (JsonRpc.notification n) = can_hold_meta n.params
  accepts_meta (JsonRpc.response r) = false

  meta_text-inject :
      (key c t : String) (params : Option Value)
      → meta_text J key (set_params_meta J c (string t) (sanitize_params J params)) ≡ (
          if c == key
          then (if can_hold_meta params then some t else none)
          else if is_internal_key key
          then none
          else meta_text J key params)
  meta_text-inject key c t params = rw (meta_text-set, can_hold_meta-sanitize, meta_text-sanitize)

  -- After a transport sanitizes a message and injects a connection id, the connection read back is
  -- the injected one, or none where the message has no room for it, whatever the peer sent; and
  -- the message names no session.
  pub injected_connection :
      (msg : JsonRpcMessage Value) (conn : String)
      → let out = set_request_meta J (sanitize_inbound J msg) connection_id_key (string conn) in
        (connection_id J (params_of out) ≡ (if accepts_meta msg then some conn else none))
        × (session_id J (params_of out) ≡ none)
  unfolding sanitize_inbound set_request_meta connection_id session_id is_internal_key
  injected_connection (JsonRpc.request r) conn = (
    meta_text-inject connection_id_key connection_id_key conn r.params,
    meta_text-inject session_id_key connection_id_key conn r.params,
  )
  injected_connection (JsonRpc.notification n) conn = (
    meta_text-inject connection_id_key connection_id_key conn n.params,
    meta_text-inject session_id_key connection_id_key conn n.params,
  )
  injected_connection (JsonRpc.response r) conn = (refl, refl)

  get-partition_from :
      (k : String) (c p : Object) (l : HashMap String Value)
      → Maps.IsDistinct l
      → let out = partition_from J c p l in
        let found = Maps.get k l in
        (get k out.0 ≡ (
          if is_framework_key k then elim found [ none ↦ get k c | some v ↦ some v ] else get k c))
        × (get k out.1 ≡ (
            if is_framework_key k
            then get k p
            else elim found [ none ↦ get k p | some v ↦ some v ]))
  unfolding partition_from Maps.get
  get-partition_from k c p [] d = ground arith
  get-partition_from k c p ((j, v) ∷ rest) d = grind (
    arith,
    get-partition_from k (insert j v c) p rest d.1,
    get-partition_from k c (insert j v p) rest d.1,
    get-insert j k v c,
    get-insert j k v p,
    string_key.same_iff j k,
  )

  is_internal-is_framework : (k : String) → is_internal_key k ≡ true → is_framework_key k ≡ true
  unfolding is_framework_key
  is_internal-is_framework k h = ground arith

  get-partition :
      (m : Object) (k : String)
      → (get k (partition J m).0 ≡ (if is_framework_key k then get k m else none))
        × (get k (partition J m).1 ≡ (if is_framework_key k then none else get k m))
  unfolding partition
  get-partition m k = grind (
    arith,
    get-partition_from k empty empty (entries m) (J.entries-IsDistinct m),
    J.get-entries k m,
    get-empty k,
  )

  -- `partition` loses no `_meta` entry and puts none on both sides: the framework's keys are
  -- consumed, all others are propagated, so that no internal key is ever propagated.
  pub partition_lem :
      (m : Object) (k : String)
      → (get k (partition J m).0 ≡ (if is_framework_key k then get k m else none))
        × (get k (partition J m).1 ≡ (if is_framework_key k then none else get k m))
        × ((if is_internal_key k then get k (partition J m).1 else none) ≡ none)
  partition_lem m k =
      let (consumed, propagated) = get-partition m k in
      (
        consumed,
        propagated,
        elim (Bool-cases (is_internal_key k)) [
          | inl h ↦ rw h (propagated ∙ rw (is_internal-is_framework k h))
          | inr h ↦ rw h refl
        ],
      )
