-- ===== src/LegacyTasks/Store/Order.antt =====
-- What `tasks/list` pages through: the session's tasks, each once, oldest first.
use turbomcp.Prelude.{
  ℕ, ◌≤◌, ◌≡◌, ◌∙◌, refl, String, none, some, List, [], ◌∷◌, arith, keep_if, leb, if◌then◌else◌,
  ◌==◌, string_key, Bool-cases, inl, inr,
}
use turbomcp.Prelude.HashMap.{HashMap, IsDistinct, retain, get-retain}
use turbomcp.Prelude.HashMap as Maps
use turbomcp.Prelude.HashMap.Laws.{retain-IsDistinct}
use turbomcp.Core.Host.{Host}
use turbomcp.LegacyTasks.Store.{TaskEntry, owned, insert_by_created, sort_by_created, of_session}

module _ (H : Host) where
  abbrev Tasks : Type 0
  Tasks = List (String × TaskEntry H)

  -- No task of the list is older than `t`.
  abbrev pub NotBefore : ℕ → Tasks → Type 0
  NotBefore t [] = Unit
  NotBefore t ((_, e) ∷ xs) = (t ≤ e.created) × NotBefore t xs

  abbrev pub IsOldestFirst : Tasks → Type 0
  IsOldestFirst [] = Unit
  IsOldestFirst ((_, e) ∷ xs) = NotBefore e.created xs × IsOldestFirst xs

  NotBefore-of_le : (t u : ℕ) (xs : Tasks) → t ≤ u → NotBefore u xs → NotBefore t xs
  NotBefore-of_le t u [] le h = tt
  NotBefore-of_le t u ((_, e) ∷ xs) le h = (omega (arith, h.0), NotBefore-of_le t u xs le h.1)

  insert-NotBefore :
      (t : ℕ) (id : String) (e : TaskEntry H) (xs : Tasks)
      → t ≤ e.created
      → NotBefore t xs
      → NotBefore t (insert_by_created H (id, e) xs)
  unfolding insert_by_created
  insert-NotBefore t id e [] le h = (le, tt)
  insert-NotBefore t id e ((id', e') ∷ xs) le h = elim (Bool-cases (leb e.created e'.created)) [
    | inl first ↦ rw first (le, (h.0, h.1))
    | inr later ↦ rw later (h.0, insert-NotBefore t id e xs le h.1)
  ]

  insert-IsOldestFirst :
      (id : String) (e : TaskEntry H) (xs : Tasks)
      → IsOldestFirst xs
      → IsOldestFirst (insert_by_created H (id, e) xs)
  unfolding insert_by_created
  insert-IsOldestFirst id e [] h = (tt, tt)
  insert-IsOldestFirst id e ((id', e') ∷ xs) h = elim (Bool-cases (leb e.created e'.created)) [
    | inl first ↦
        let le : e.created ≤ e'.created = ground arith in
        rw first ((le, NotBefore-of_le e.created e'.created xs le h.0), (h.0, h.1))
    | inr later ↦
        let le : e'.created ≤ e.created = ground arith in
        rw later (insert-NotBefore e'.created id e xs le h.0, insert-IsOldestFirst id e xs h.1)
  ]

  sort-IsOldestFirst : (xs : Tasks) → IsOldestFirst (sort_by_created H xs)
  unfolding sort_by_created
  sort-IsOldestFirst [] = tt
  sort-IsOldestFirst ((id, e) ∷ xs) =
      insert-IsOldestFirst id e (sort_by_created H xs) (sort-IsOldestFirst xs)

  get-insert_by_created :
      (j id : String) (e : TaskEntry H) (xs : Tasks)
      → Maps.get id xs ≡ none
      → Maps.get j (insert_by_created H (id, e) xs) ≡ (if id == j then some e else Maps.get j xs)
  unfolding insert_by_created Maps.get
  get-insert_by_created j id e [] h = refl
  get-insert_by_created j id e ((id', e') ∷ xs) h = ground (
    arith,
    string_key.same_iff id j,
    string_key.same_iff id' j,
    string_key.same_iff id' id,
    get-insert_by_created j id e xs,
  )

  insert-IsDistinct :
      (id : String) (e : TaskEntry H) (xs : Tasks)
      → Maps.get id xs ≡ none
      → IsDistinct xs
      → IsDistinct (insert_by_created H (id, e) xs)
  unfolding insert_by_created Maps.get
  insert-IsDistinct id e [] h d = (refl, tt)
  insert-IsDistinct id e ((id', e') ∷ xs) h d = ground (
    arith,
    string_key.same_iff id' id,
    string_key.same_iff id id',
    insert-IsDistinct id e xs,
    get-insert_by_created id' id e xs,
  )

  get-sort :
      (j : String) (xs : Tasks) → IsDistinct xs → Maps.get j (sort_by_created H xs) ≡ Maps.get j xs
  unfolding sort_by_created Maps.get
  get-sort j [] d = refl
  get-sort j ((id, e) ∷ xs) d = ground (
    arith,
    get-sort j xs d.1,
    get-sort id xs d.1,
    get-insert_by_created j id e (sort_by_created H xs),
  )

  sort-IsDistinct : (xs : Tasks) → IsDistinct xs → IsDistinct (sort_by_created H xs)
  unfolding sort_by_created
  sort-IsDistinct [] d = tt
  sort-IsDistinct ((id, e) ∷ xs) d =
      insert-IsDistinct id e (sort_by_created H xs) (get-sort id xs d.1 ∙ d.0)
        (sort-IsDistinct xs d.1)

  keep-retain :
      (session : String) (m : Tasks)
      → keep_if (λ (_, e). e.session_id == session) m ≡ retain (λ _ e. e.session_id == session) m
  unfolding retain
  keep-retain session [] = refl
  keep-retain session ((id, e) ∷ m) = ground (arith, keep-retain session m)

  get-mine :
      (session j : String) (m : Tasks)
      → IsDistinct m
      → Maps.get j (retain (λ _ e. e.session_id == session) m) ≡ owned H session j m
  unfolding owned
  get-mine session j m d = get-retain (λ _ e. e.session_id == session) j m d

  -- What a list of a registry with distinct ids pages through: the tasks that the session owns,
  -- each under its id exactly once, from the oldest to the newest.
  pub of_session_lem :
      (session : String) (m : Tasks)
      → IsDistinct m
      → IsDistinct (of_session H session m)
        × IsOldestFirst (of_session H session m)
        × ((j : String) → Maps.get j (of_session H session m) ≡ owned H session j m)
  unfolding of_session
  of_session_lem session m d =
      let kept = retain (λ _ e. e.session_id == session) m in
      let distinct : IsDistinct kept = retain-IsDistinct (λ _ e. e.session_id == session) m d in
      rw (keep-retain session m, of_session)
        (
          sort-IsDistinct kept distinct,
          sort-IsOldestFirst kept,
          λ j. get-sort j kept distinct ∙ get-mine session j m d,
        )
