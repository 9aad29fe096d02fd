-- ===== src/Dispatcher/Isolation.antt =====
-- The task methods of one session do not depend on the tasks of another.
use turbomcp.Prelude.{
  ℕ, ◌≡◌, refl, ap, Bool, true, false, String, if◌then◌else◌, ◌==◌, string_key, Result-cases, inl,
  inr,
}
use turbomcp.Prelude.HashMap.{IsDistinct}
use turbomcp.Core.Json.{◌>>=◌, member}
use turbomcp.Core.Methods as Methods
use turbomcp.Core.JsonRpc.{JsonRpcRequest}
use turbomcp.LegacyTasks.Store.{TaskStore}
use turbomcp.LegacyTasks.Store.Isolation.{view, session_isolated}
use turbomcp.Dispatcher.Platform.{Platform, json, host}
use turbomcp.Dispatcher.Responses.{Value}
use turbomcp.Dispatcher.TaskMethods.{
  replied, list_reply, get_reply, cancel_reply, result_reply, Done, on_task_id, parse_task_id,
  handle_tasks_method, tasks_page_size,
}

module _ (P : Platform) (now : ℕ) (wall : P.base.Wall) (sid : String)
    (req : JsonRpcRequest (Value P)) (store : TaskStore (host P.base)) where
  abbrev alone : TaskStore (host P.base)
  alone = view (host P.base) sid store

  by_test :
      (b : Bool) (x x' y y' : Done P)
      → x.1 ≡ x'.1
      → y.1 ≡ y'.1
      → (if b then x else y).1 ≡ (if b then x' else y').1
  by_test true x x' y y' p q = p
  by_test false x x' y y' p q = q

  on_id :
      (next next' : String → Done P)
      → ((id : String) → (next id).1 ≡ (next' id).1)
      → (on_task_id P req alone next).1 ≡ (on_task_id P req store next').1
  on_id next next' h = elim (Result-cases (parse_task_id P req.params)) [
    | inr (e, bad) ↦ rw (bad, on_task_id) refl
    | inl (id, good) ↦ rw (good, on_task_id) (h id)
  ]

  -- In a registry with distinct ids, every task method of a session, `tasks/list`, `tasks/get`,
  -- `tasks/cancel` and `tasks/result`, replies, or waits, as if the registry held the tasks of that
  -- session alone.
  pub handle_tasks_method-view :
      IsDistinct store.inner
      → (handle_tasks_method P now wall sid req (view (host P.base) sid store)).1
        ≡ (handle_tasks_method P now wall sid req store).1
  unfolding handle_tasks_method
  handle_tasks_method-view distinct =
      let H = host P.base in
      let cursor = req.params >>= member (json P) "cursor" >>= (json P).as_str in
      let isolated =
        λ (id : String). session_isolated H now sid store distinct id wall cursor tasks_page_size in
      by_test (req.method == Methods.tasks_list) _ _ _ _
        (ap (λ r. replied (list_reply P req.id r)) (isolated "").1)
        (by_test (req.method == Methods.tasks_get) _ _ _ _
          (on_id _ _ (λ id. ap (λ r. replied (get_reply P req.id r)) (isolated id).0))
          (by_test (req.method == Methods.tasks_cancel) _ _ _ _
            (on_id _ _ (λ id. ap (λ r. replied (cancel_reply P req.id r)) (isolated id).3))
            (on_id _ _ (λ id. ap (λ r. result_reply P req.id r) (isolated id).2))))
