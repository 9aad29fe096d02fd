-- ===== src/DraftTasks/Store/Expiry.antt =====
-- Expiry: which tasks `tasks/get` still shows, and which cancellation tokens a purge fires.
use turbomcp.Prelude.{
  ℕ, ◌≡◌, ◌↔◌, refl, false, not, String, some, List, [], ◌∷◌, ◌++◌, arith, string_key,
  if◌then◌else◌, Option-cases, inl, inr, ◌&&◌,
}
use turbomcp.Prelude.HashMap.{HashMap}
use turbomcp.Prelude.HashMap as Maps
use turbomcp.Core.Host.{Host}
use turbomcp.DraftTasks.Wire.{is_terminal, DetailedTask}
use turbomcp.DraftTasks.Store.{
  Store, Entry, Effect, fire, send, drop_sender, dropped, purged, expired, get_task, detailed,
}
use turbomcp.DraftTasks.Store.Invariant.{StoreOk}
use turbomcp.DraftTasks.Store.History.{get-live}

module _ (H : Host) where
  open H use {json}
  open json use {Value}

  -- In a registry that satisfies the invariant, `tasks/get` answers with a task exactly if the
  -- registry has it and it has not expired, and then as it is recorded.
  pub get_task_lem :
      (now : ℕ) (id : String) (s : Store H) (d : DetailedTask json)
      → StoreOk H s
      → ((get_task H now id s).1 ≡ some d) ↔ (
          (e : Entry H) × (Maps.get id s.tasks ≡ some e)
          × (expired H now e ≡ false)
          × (d ≡ detailed H id e))
  unfolding get_task
  get_task_lem now id s d ok = (
    (λ h. elim (Option-cases (Maps.get id s.tasks)) [
      | inl missing ↦ absurd (ground (arith, get-live H now id s ok))
      | inr (e, found) ↦
          (e, found, ground (arith, get-live H now id s ok), ground (arith, get-live H now id s ok))
    ]),
    (λ (e, found, kept, shown). ground (arith, get-live H now id s ok)),
  )

  -- The cancellation tokens among the effects.
  abbrev pub fired_tokens : List (Effect Value) → List ℕ
  fired_tokens [] = []
  fired_tokens (fire token ∷ l) = token ∷ fired_tokens l
  fired_tokens (send _ _ ∷ l) = fired_tokens l
  fired_tokens (drop_sender _ ∷ l) = fired_tokens l

  abbrev pub expired_tokens : ℕ → HashMap String (Entry H) → List ℕ
  expired_tokens now [] = []
  expired_tokens now ((id, e) ∷ m) =
      if expired H now e && not (is_terminal e.status)
      then e.cancel ∷ expired_tokens now m
      else expired_tokens now m

  fired_tokens-dropped :
      (w : HashMap String ℕ) (l : List (Effect Value))
      → fired_tokens (dropped H w ++ l) ≡ fired_tokens l
  unfolding dropped
  fired_tokens-dropped [] l = refl
  fired_tokens-dropped ((k, c) ∷ w) l = fired_tokens-dropped w l

  -- A purge fires the token of each expired task that is not over, once, and no other token.
  pub fired_tokens-purged :
      (now : ℕ) (m : HashMap String (Entry H))
      → fired_tokens (purged H now m) ≡ expired_tokens now m
  unfolding purged
  fired_tokens-purged now [] = refl
  fired_tokens-purged now ((id, e) ∷ m) =
      ground
        (arith, fired_tokens-purged now m, fired_tokens-dropped e.inputs.waiters (purged H now m))
