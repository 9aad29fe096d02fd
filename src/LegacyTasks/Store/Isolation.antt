-- ===== src/LegacyTasks/Store/Isolation.antt =====
-- Sessions do not see each other: what a session reads from the registry depends only on its own
-- tasks, and what it cancels is its own.
use turbomcp.Prelude.{
  ℕ, ◌≡◌, ◌≢◌, ◌∙◌, sym, refl, ap, not, String, Option, none, some, [], ◌∷◌, keep_if, if◌then◌else◌,
  arith, ◌==◌, string_key, Result, ok, err, Option-cases, Bool-cases, inl, inr,
}
use turbomcp.Prelude.HashMap.{HashMap, IsDistinct, retain, get-retain, get-retain_none, get-insert}
use turbomcp.Prelude.HashMap as Maps
use turbomcp.Prelude.HashMap.Laws.{retain-IsDistinct}
use turbomcp.Core.Host.{Host}
use turbomcp.LegacyTasks.Store.{
  is_terminal, TaskSnapshot, TaskError, not_found, already_terminal, snapshot, TaskEntry, TaskStore,
  expired, live, owned, cancel_entry, cancel, get, of_session, sort_by_created, page_from, list,
  wait_once, offset_of,
}
use turbomcp.LegacyTasks.Store.Invariant.{get-owned}

module _ (H : Host) where
  open H use {Wall}

  abbrev Tasks : Type 0
  Tasks = HashMap String (TaskEntry H)

  -- The tasks of one session.
  unfoldable pub mine : String → Tasks → Tasks
  mine session = retain (λ _ e. e.session_id == session)

  unfoldable pub view : String → TaskStore H → TaskStore H
  unfolding mine
  view session s = record s { inner = mine session s.inner }

  -- Purging and restricting to a session commute.
  live-mine :
      (now : ℕ) (session : String) (m : Tasks)
      → live H now (mine session m) ≡ mine session (live H now m)
  unfolding live mine retain
  live-mine now session [] = refl
  live-mine now session ((id, e) ∷ m) = elim (Bool-cases (expired H now e)) [
    | inl gone ↦ elim (Bool-cases (e.session_id == session)) [
      | inl own ↦ rw (gone, own) (rw gone (live-mine now session m))
      | inr other ↦ rw (gone, other) (live-mine now session m)
    ]
    | inr here ↦ elim (Bool-cases (e.session_id == session)) [
      | inl own ↦ rw (here, own) (rw here (ap (λ m'. (id, e) ∷ m') (live-mine now session m)))
      | inr other ↦ rw (here, other) (live-mine now session m)
    ]
  ]

  owned-mine :
      (session id : String) (m : Tasks)
      → IsDistinct m
      → owned H session id (mine session m) ≡ owned H session id m
  unfolding owned mine
  owned-mine session id m d =
      let kept = get-retain (λ _ e. e.session_id == session) id m d in
      elim (Option-cases (Maps.get id m)) [
        | inl e ↦ ground (arith, kept)
        | inr (x, e) ↦ elim (Bool-cases (x.session_id == session)) [
          | inl own ↦ ground (arith, kept)
          | inr other ↦ ground (arith, kept)
        ]
      ]

  keep-mine :
      (session : String) (m : Tasks)
      → keep_if (λ (_, e). e.session_id == session) (mine session m)
        ≡ keep_if (λ (_, e). e.session_id == session) m
  unfolding mine retain
  keep-mine session [] = refl
  keep-mine session ((id, e) ∷ m) = ground (arith, keep-mine session m)

  -- What `cancel` answers about the entry that it finds.
  abbrev answer : String → Wall → Option (TaskEntry H) → Result TaskSnapshot TaskError
  answer id wall none = err not_found
  answer id wall (some e) =
      if is_terminal e.status
      then err already_terminal
      else ok (snapshot H id (cancel_entry H wall e))

  cancel-answer :
      (now : ℕ) (wall : Wall) (session id : String) (s : TaskStore H)
      → (cancel H now wall session id s).1
        ≡ answer id wall (owned H session id (live H now s.inner))
  unfolding cancel
  cancel-answer now wall session id s =
      elim (Option-cases (owned H session id (live H now s.inner))) [
        | inl e ↦ rw (e, cancel) refl
        | inr (x, e) ↦ elim (Bool-cases (is_terminal x.status)) [
          | inl over ↦ rw (e, cancel) (rw over refl)
          | inr alive ↦ rw (e, cancel) (rw alive refl)
        ]
      ]

  owner :
      (session id : String) (x : TaskEntry H) (m : Tasks)
      → owned H session id m ≡ some x
      → x.session_id ≡ session
  unfolding owned
  owner session id x m h = elim (Option-cases (Maps.get id m)) [
    | inl e ↦ ground arith
    | inr (y, e) ↦ ground (arith, string_key.same_iff y.session_id session)
  ]

  module _ (now : ℕ) (session : String) (s : TaskStore H) (d : IsDistinct s.inner) where
    seen :
        (id : String)
        → owned H session id (live H now (mine session s.inner))
          ≡ owned H session id (live H now s.inner)
    unfolding live
    seen id = rw (live-mine now session s.inner) (
        owned-mine session id (live H now s.inner)
          (retain-IsDistinct (λ _ e. not (expired H now e)) s.inner d))

    seen_all :
        of_session H session (live H now (mine session s.inner))
        ≡ of_session H session (live H now s.inner)
    unfolding of_session
    seen_all =
        rw (live-mine now session s.inner)
          (ap (sort_by_created H) (keep-mine session (live H now s.inner)))

    list-view :
        (cursor : Option String) (page_size : ℕ)
        → (list H now session cursor page_size (view session s)).1
          ≡ (list H now session cursor page_size s).1
    unfolding list view
    list-view cursor page_size = elim (Option-cases (offset_of H cursor)) [
      | inl e ↦ rw (e, list) refl
      | inr (offset, e) ↦ rw (e, list) (ap (λ all. ok (page_from H offset page_size all)) seen_all)
    ]

    cancel-view :
        (id : String) (wall : Wall)
        → (cancel H now wall session id (view session s)).1 ≡ (cancel H now wall session id s).1
    unfolding view
    cancel-view id wall =
        cancel-answer now wall session id (view session s)
        ∙ ap (answer id wall) (seen id)
        ∙ sym (cancel-answer now wall session id s)

    -- In a registry with distinct ids, `tasks/get`, `tasks/list`, `tasks/result` and
    -- `tasks/cancel` of a session answer as if the registry held the tasks of that session alone.
    pub session_isolated :
        (id : String) (wall : Wall) (cursor : Option String) (page_size : ℕ)
        → ((get H now session id (view session s)).1 ≡ (get H now session id s).1)
          × ((list H now session cursor page_size (view session s)).1
              ≡ (list H now session cursor page_size s).1)
          × ((wait_once H now session id (view session s)).1 ≡ (wait_once H now session id s).1)
          × ((cancel H now wall session id (view session s)).1 ≡ (cancel H now wall session id s).1)
    unfolding get wait_once view
    session_isolated id wall cursor page_size = (
      rw (seen id, get) refl,
      list-view cursor page_size,
      rw (seen id, wait_once) refl,
      cancel-view id wall,
    )

  -- What one session cancels, another does not notice: `tasks/cancel` leaves what another session
  -- owns as the purge of expired tasks leaves it.
  pub cancel-other_session :
      (now : ℕ) (wall : Wall) (session other id j : String) (s : TaskStore H)
      → session ≢ other
      → owned H other j (cancel H now wall session id s).0.inner
        ≡ owned H other j (live H now s.inner)
  unfolding cancel owned cancel_entry
  cancel-other_session now wall session other id j s apart =
      let tasks = live H now s.inner in
      elim (Option-cases (owned H session id tasks)) [
        | inl e ↦ rw (e, cancel) refl
        | inr (x, e) ↦ elim (Bool-cases (is_terminal x.status)) [
          | inl over ↦ rw (e, cancel) (rw over refl)
          | inr alive ↦
              rw (e, cancel)
                (rw alive (elim (Bool-cases (id == j)) [
                  | inr there ↦ ground (arith, get-insert id j (cancel_entry H wall x) tasks)
                  | inl here ↦ ground (
                    arith,
                    get-insert id j (cancel_entry H wall x) tasks,
                    string_key.same_iff id j,
                    get-owned H session id x tasks e,
                    owner session id x tasks e,
                    string_key.same_iff x.session_id other,
                  )
                ]))
        ]
      ]
