-- ===== src/Dispatcher/Replies/Tasks.antt =====
-- The replies of the task methods, and of the gate of a session, answer their request.
use turbomcp.Prelude.{
  ℕ, String, Option, List, Result, ok, err, arith, ◌==◌, string_key, Result-cases, Option-cases,
  inl, inr,
}
use turbomcp.Core.Methods as Methods
use turbomcp.Core.JsonRpc.{RequestId, JsonRpcRequest}
use turbomcp.LegacyTasks.Store.{TaskSnapshot, TaskError, finished, missing, blocked}
use turbomcp.LegacyTasks.Store as Store
use turbomcp.Core.Meta.{session_id}
use turbomcp.Sessions.Store.{SessionStore}
use turbomcp.Sessions.Store as Sessions
use turbomcp.Dispatcher.Platform.{Platform, json, host}
use turbomcp.Dispatcher.Context.{RequestContext}
use turbomcp.Dispatcher.Router.{MethodRouter}
use turbomcp.Dispatcher.Responses.{Value, error_response, ok_value}
use turbomcp.Dispatcher.Params.{Gate, live, answered, gone, legacy_context}
use turbomcp.Dispatcher.TaskMethods.{
  TaskReply, replied, waiting, task_error_response, list_reply, get_reply, cancel_reply,
  result_reply, on_task_id, handle_tasks_method, task_augmented_call, started, Minted, Done,
  legacy_list_tools_with_task_support, parse_task_id,
}
use turbomcp.Dispatcher.Answers.{ReplyTo, of_either, error_response-ReplyTo, ok_value-ReplyTo}

module _ (P : Platform) where
  abbrev pub TaskReplyTo : RequestId → TaskReply P → Type 0
  TaskReplyTo id (replied m) = ReplyTo P id m
  TaskReplyTo id (waiting _) = Unit

  task_error_response-ReplyTo :
      (id : RequestId) (e : TaskError) → ReplyTo P id (task_error_response P id e)
  unfolding task_error_response
  task_error_response-ReplyTo id e = record { answered = ground arith }

  list_reply-ReplyTo :
      (id : RequestId) (r : Result (List TaskSnapshot × Option String) TaskError)
      → ReplyTo P id (list_reply P id r)
  list_reply-ReplyTo id (err e) = task_error_response-ReplyTo id e
  list_reply-ReplyTo id (ok (page, next)) = ok_value-ReplyTo P id _

  get_reply-ReplyTo :
      (id : RequestId) (r : Result TaskSnapshot TaskError) → ReplyTo P id (get_reply P id r)
  get_reply-ReplyTo id (err e) = task_error_response-ReplyTo id e
  get_reply-ReplyTo id (ok s) = ok_value-ReplyTo P id _

  cancel_reply-ReplyTo :
      (id : RequestId) (r : Result TaskSnapshot TaskError) → ReplyTo P id (cancel_reply P id r)
  cancel_reply-ReplyTo id (err e) = task_error_response-ReplyTo id e
  cancel_reply-ReplyTo id (ok s) = ok_value-ReplyTo P id _

  result_reply-TaskReplyTo :
      (id : RequestId) (r : Store.Round (host P.base)) → TaskReplyTo id (result_reply P id r)
  result_reply-TaskReplyTo id (finished (ok v)) = record { answered = ground arith }
  result_reply-TaskReplyTo id (finished (err e)) = record { answered = ground arith }
  result_reply-TaskReplyTo id missing = task_error_response-ReplyTo id _
  result_reply-TaskReplyTo id (blocked channel) = tt

  abbrev DoneTo : RequestId → Done P → Type 0
  DoneTo id d = TaskReplyTo id d.1

  on_task_id-DoneTo :
      (req : JsonRpcRequest (Value P)) (store : _) (next : String → Done P)
      → ((id : String) → DoneTo req.id (next id))
      → DoneTo req.id (on_task_id P req store next)
  on_task_id-DoneTo req store next h = elim (Result-cases (parse_task_id P req.params)) [
    | inl (id, good) ↦ rw (good, on_task_id) (h id)
    | inr (e, bad) ↦ rw (bad, on_task_id) (error_response-ReplyTo P req.id e)
  ]

  pub handle_tasks_method-DoneTo :
      (now : ℕ) (wall : P.base.Wall) (sid : String) (req : JsonRpcRequest (Value P)) (store : _)
      → DoneTo req.id (handle_tasks_method P now wall sid req store)
  unfolding handle_tasks_method
  handle_tasks_method-DoneTo now wall sid req store =
      let Q : Done P → Type 0 = DoneTo req.id in
      of_either Q (req.method == Methods.tasks_list) _ _ (list_reply-ReplyTo req.id _) (
        of_either Q (req.method == Methods.tasks_get) _ _
          (on_task_id-DoneTo req store _ (λ id. get_reply-ReplyTo req.id _))
          (of_either Q (req.method == Methods.tasks_cancel) _ _
            (on_task_id-DoneTo req store _ (λ id. cancel_reply-ReplyTo req.id _))
            (on_task_id-DoneTo req store _ (λ id. result_reply-TaskReplyTo req.id _))))

  pub task_augmented_call-ReplyTo :
      (m : Minted P) (router : MethodRouter P) (ctx : RequestContext (json P)) (sid : String)
      (req : JsonRpcRequest (Value P)) (store : _)
      → ReplyTo P req.id (task_augmented_call P m router ctx sid req store).answer
  unfolding task_augmented_call started task_error_response error_response ok_value
  task_augmented_call-ReplyTo m router ctx sid req store = record { answered = ground arith }

  pub legacy_list_tools-ReplyTo :
      (router : MethodRouter P) (req : JsonRpcRequest (Value P)) (ctx : RequestContext (json P))
      → ReplyTo P req.id (legacy_list_tools_with_task_support P router req ctx)
  unfolding legacy_list_tools_with_task_support error_response ok_value
  legacy_list_tools-ReplyTo router req ctx = record { answered = ground arith }

  abbrev pub GateTo : RequestId → Gate P → Type 0
  GateTo id (live _) = Unit
  GateTo id (answered m) = ReplyTo P id m
  GateTo id (gone _) = Unit

  pub legacy_context-GateTo :
      (now token : ℕ) (sessions : SessionStore (json P)) (req : JsonRpcRequest (Value P))
      → GateTo req.id (legacy_context P now token sessions req).1
  unfolding legacy_context
  legacy_context-GateTo now token sessions req =
      elim (Option-cases (session_id (json P) req.params)) [
        | inl e ↦ rw (e, legacy_context) (record { answered = ground arith })
        | inr (sid, e) ↦ elim (Option-cases (Sessions.get (json P) now sid sessions).1) [
          | inl f ↦ rw (e, legacy_context) (rw f tt)
          | inr (state, f) ↦ rw (e, legacy_context) (rw f tt)
        ]
      ]
