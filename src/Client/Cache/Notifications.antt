-- ===== src/Client/Cache/Notifications.antt =====
-- Which entries a notification of the server invalidates.
use turbomcp.Prelude.{
  ℕ, ◌≡◌, refl, Bool, false, not, ◌&&◌, ◌||◌, String, Option, none, some, arith, if◌then◌else◌,
  ◌==◌, string_key, pair_key, option_key, Option-cases, Bool-cases, inl, inr,
}
use turbomcp.Prelude.HashMap as Maps
use turbomcp.Prelude.HashMap.{HashMap, retain, get-remove, get-retain_key}
use turbomcp.Core.Json.{Json, member, ◌>>=◌}
use turbomcp.Core.Methods as Methods
use turbomcp.Client.Cache.{CacheKey, ResponseCache, on_notification}

module _ (J : Json) (as_u64 : J.Value → Option ℕ) where
  -- The resource that a resource-updated notification names.
  abbrev pub uri_of : Option J.Value → Option String
  uri_of params = params >>= member J "uri" >>= J.as_str

  abbrev is_key_of : Option String → CacheKey → Bool
  is_key_of none k = false
  is_key_of (some uri) k = (Methods.resources_read, some uri) == k

  -- What the specification of the notifications makes stale: each list-changed notification the
  -- lists of its kind, resource contents with the resources, an update the resource it names.
  unfoldable pub invalidates : String → Option J.Value → CacheKey → Bool
  invalidates note params (m, d) =
      (note == Methods.tools_list_changed && m == Methods.tools_list)
      || (note == Methods.prompts_list_changed && m == Methods.prompts_list)
      || (note == Methods.resources_list_changed
          && (m == Methods.resources_list
              || m == Methods.resources_templates_list
              || m == Methods.resources_read))
      || (note == Methods.resources_updated && is_key_of (uri_of params) (m, d))

  -- A notification removes exactly the entries that it invalidates: the tool list, the prompt
  -- list, the resource lists with every resource read, or the one resource that an update
  -- names. Every other entry stays as it was, and another notification leaves all of them.
  pub on_notification_lem :
      (note : String) (params : Option J.Value) (c : ResponseCache J as_u64) (k : CacheKey)
      → Maps.get k (on_notification J as_u64 note params c)
        ≡ (if invalidates note params k then none else Maps.get k c)
  unfolding on_notification invalidates
  on_notification_lem note params c (m, d) =
      elim (Bool-cases (note == Methods.tools_list_changed)) [
        | inl e ↦
            rw ((string_key.same_iff note Methods.tools_list_changed).0 e, on_notification)
              (ground (arith, get-retain_key (λ (n, _). not (n == Methods.tools_list)) (m, d) c))
        | inr tools ↦ elim (Bool-cases (note == Methods.prompts_list_changed)) [
          | inl e ↦
              rw ((string_key.same_iff note Methods.prompts_list_changed).0 e, on_notification)
                (ground
                  (arith, get-retain_key (λ (n, _). not (n == Methods.prompts_list)) (m, d) c))
          | inr prompts ↦ elim (Bool-cases (note == Methods.resources_list_changed)) [
            | inl e ↦
                rw ((string_key.same_iff note Methods.resources_list_changed).0 e, on_notification)
                  (ground (
                    arith,
                    get-retain_key
                        (λ (n, _).
                          not (n == Methods.resources_list)
                          && not (n == Methods.resources_templates_list)
                          && not (n == Methods.resources_read))
                        (m, d) c,
                  ))
            | inr lists ↦ elim (Bool-cases (note == Methods.resources_updated)) [
              | inr other ↦ ground arith
              | inl e ↦
                  rw ((string_key.same_iff note Methods.resources_updated).0 e, on_notification)
                    (elim (Option-cases (uri_of params)) [
                      | inl none_there ↦ rw none_there refl
                      | inr (uri, u) ↦ rw u (get-remove (Methods.resources_read, some uri) (m, d) c)
                    ])
            ]
          ]
        ]
      ]
