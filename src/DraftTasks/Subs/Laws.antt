-- ===== src/DraftTasks/Subs/Laws.antt =====
-- Who listens to a task after a subscription and after a connection is gone.
use turbomcp.Prelude.{
  ◌≡◌, refl, Bool, if◌then◌else◌, true, false, not, ◌&&◌, ◌||◌, none, String, List, [], ◌∷◌, ◌++◌,
  is_empty, holds, ◌==◌, string_key, arith,
}
use turbomcp.Prelude.HashMap as Maps
use turbomcp.Prelude.HashMap.{HashMap, IsDistinct, get-insert}
use turbomcp.Core.JsonRpc.{RequestId}
use turbomcp.DraftTasks.Subs.{
  Subscriber, subscriber_key, TaskSubscriptions, subscribers, add, subscribe_all, subscribe, keep,
  drop_connection,
}

holds-append :
    (xs : List Subscriber) (y s : Subscriber) → holds (xs ++ y ∷ []) s ≡ (holds xs s || (y == s))
holds-append [] y s = ground arith
holds-append (x ∷ xs) y s = ground (arith, holds-append xs y s)

-- One subscriber, at the end, if it is not there yet.
abbrev pub with_subscriber : Bool → Subscriber → List Subscriber → List Subscriber
with_subscriber named s subs = if named && not (holds subs s) then subs ++ s ∷ [] else subs

add_twice :
    (b : Bool) (s : Subscriber) (subs : List Subscriber)
    → with_subscriber b s (add s subs) ≡ add s subs
add_twice b s subs = ground (arith, holds-append subs s s, subscriber_key.same_iff s s)

subscribers-subscribe_all :
    (s : Subscriber) (ids : List String) (j : String) (m : TaskSubscriptions)
    → subscribers j (subscribe_all s ids m) ≡ with_subscriber (holds ids j) s (subscribers j m)
unfolding subscribe_all subscribers
subscribers-subscribe_all s [] j m = ground arith
subscribers-subscribe_all s (i ∷ ids) j m = ground (
  arith,
  subscribers-subscribe_all s ids j (Maps.insert i (add s (subscribers i m)) m),
  get-insert i j (add s (subscribers i m)) m,
  add_twice (holds ids j) s (subscribers i m),
  string_key.same_iff i j,
)

-- After a subscription, the listeners of a task are those before it, in their order, followed by
-- the new subscriber exactly when the task is among those that it names and the subscriber does
-- not listen to it already.
pub subscribe_lem :
    (connection : String) (id : RequestId) (ids : List String) (j : String) (m : TaskSubscriptions)
    → let s : Subscriber = record { connection = connection; subscription_id = id } in
      subscribers j (subscribe connection id ids m) ≡ (
        if holds ids j && not (holds (subscribers j m) s)
        then subscribers j m ++ s ∷ []
        else subscribers j m)
unfolding subscribe
subscribe_lem connection id ids j m =
    subscribers-subscribe_all (record { connection = connection; subscription_id = id }) ids j m

holds-keep :
    (c : String) (subs : List Subscriber) (t : Subscriber)
    → holds (keep c subs) t ≡ (not (t.connection == c) && holds subs t)
holds-keep c [] t = ground arith
holds-keep c (s ∷ subs) t = ground (arith, holds-keep c subs t, subscriber_key.same_iff s t)

get-drop_none :
    (c : String) (j : String) (m : TaskSubscriptions)
    → Maps.get j m ≡ none
    → Maps.get j (drop_connection c m) ≡ none
unfolding drop_connection Maps.get
get-drop_none c j [] h = refl
get-drop_none c j ((i, subs) ∷ m) h = ground (arith, get-drop_none c j m)

holds-empty :
    (subs : List Subscriber) (t : Subscriber) → is_empty subs ≡ true → holds subs t ≡ false
holds-empty [] t h = refl
holds-empty (s ∷ subs) t h = ground arith

-- After a connection is dropped, the listeners of a task are those before it that are not of that
-- connection.
pub drop_connection_lem :
    (c j : String) (m : TaskSubscriptions) (t : Subscriber)
    → IsDistinct m
    → holds (subscribers j (drop_connection c m)) t
      ≡ (not (t.connection == c) && holds (subscribers j m) t)
unfolding drop_connection subscribers Maps.get
drop_connection_lem c j [] t d = ground arith
drop_connection_lem c j ((i, subs) ∷ m) t d = ground (
  arith,
  drop_connection_lem c j m t d.1,
  string_key.same_iff i j,
  get-drop_none c i m d.0,
  holds-keep c subs t,
  holds-empty (keep c subs) t,
)
