-- ===== src/LegacyTasks/Store/Paging.antt =====
-- A client that follows the cursors of `tasks/list`.
use turbomcp.Prelude.{
  ℕ, zero, suc, ◌+◌, ◌-◌, ◌≤◌, ◌<◌, ◌≡◌, ◌∙◌, sym, ap, refl, true, false, String, Option, none,
  some, List, [], ◌∷◌, ◌++◌, map, arith, length, take, drop, length-take, length-drop, ltb, ok, err,
  Bool-cases, inl, inr,
}
use turbomcp.Prelude.HashMap.{HashMap, retain}
use turbomcp.Prelude.Decimal.{to_string, usize_bound}
use turbomcp.Prelude.Decimal.RoundTrip.{parse-to_string}
use turbomcp.Core.Host.{Host}
use turbomcp.LegacyTasks.Store.{
  snapshot, TaskSnapshot, TaskEntry, TaskStore, expired, live, snapshots, of_session, page_from,
  offset_of, list,
}
use mathlib.Core.List.{map-append}
use Prim.Native.Nat.{min}

take-then-drop : {A : Type 0} (n : ℕ) (xs : List A) → take n xs ++ drop n xs ≡ xs
take-then-drop zero xs = refl
take-then-drop (suc n) [] = refl
take-then-drop (suc n) (x ∷ xs) = ap (λ ys. x ∷ ys) (take-then-drop n xs)

drop_nil : {A : Type 0} (n : ℕ) → drop {A = A} n [] ≡ []
drop_nil zero = refl
drop_nil (suc n) = refl

drop-drop : {A : Type 0} (m n : ℕ) (xs : List A) → drop n (drop m xs) ≡ drop (m + n) xs
drop-drop zero n xs = let e : n ≡ 0 + n = omega arith in ap (λ k. drop k xs) e
drop-drop (suc m) n [] = drop_nil n ∙ sym (drop_nil (suc m + n))
drop-drop (suc m) n (x ∷ xs) =
    let e : suc (m + n) ≡ suc m + n = omega arith in drop-drop m n xs ∙ ap (λ k. drop k (x ∷ xs)) e

append_nil : {A : Type 0} (xs : List A) → xs ++ [] ≡ xs
append_nil [] = refl
append_nil (x ∷ xs) = ap (λ ys. x ∷ ys) (append_nil xs)

drop_past : {A : Type 0} (n : ℕ) (xs : List A) → length xs ≤ n → drop n xs ≡ []
drop_past zero [] h = refl
drop_past (suc n) [] h = refl
drop_past zero (x ∷ xs) h = absurd (omega (arith, h))
drop_past (suc n) (x ∷ xs) h = drop_past n xs (omega (arith, h))

length-map : {A B : Type 0} (f : A → B) (xs : List A) → length (map f xs) ≡ length xs
length-map f [] = refl
length-map f (x ∷ xs) = ap suc (length-map f xs)

module _ (H : Host) where
  -- The pages behind a cursor, joined; `none` if a page is refused or the fuel runs out.
  unfoldable pub follow :
      ℕ → ℕ → String → Option String → ℕ → TaskStore H → Option (List TaskSnapshot)
  follow zero now session cursor page_size s = none
  follow (suc fuel) now session cursor page_size s =
      let (s', answer, _) = list H now session cursor page_size s in
      elim answer [
        | err _ ↦ none
        | ok (page, next) ↦ elim next [
          | none ↦ some page
          | some c ↦ elim (follow fuel now session (some c) page_size s') [
            | none ↦ none
            | some rest ↦ some (page ++ rest)
          ]
        ]
      ]

  live-live :
      (now : ℕ) (m : HashMap String (TaskEntry H)) → live H now (live H now m) ≡ live H now m
  unfolding live retain
  live-live now [] = refl
  live-live now ((id, e) ∷ m) = elim (Bool-cases (expired H now e)) [
    | inl gone ↦ rw gone (live-live now m)
    | inr here ↦ rw here (rw here (ap (λ m'. (id, e) ∷ m') (live-live now m)))
  ]

  module _ (now : ℕ) (session : String) (page_size : ℕ) (positive : 1 ≤ page_size) where
    abbrev listed : TaskStore H → List (String × TaskEntry H)
    listed s = of_session H session (live H now s.inner)

    purged : TaskStore H → TaskStore H
    purged s = record s { inner = live H now s.inner }

    list-at :
        (offset : ℕ) (cursor : Option String) (s : TaskStore H)
        → offset_of H cursor ≡ some offset
        → ((list H now session cursor page_size s).0 ≡ purged s)
          × ((list H now session cursor page_size s).1
              ≡ ok (page_from H offset page_size (listed s)))
    unfolding list purged
    list-at offset cursor s at = (rw (at, list) refl, rw (at, list) refl)

    listed-purged : (s : TaskStore H) → listed (purged s) ≡ listed s
    unfolding purged
    listed-purged s = ap (of_session H session) (live-live now s.inner)

    -- The page at an offset is the whole rest, or as long as asked for.
    page_at : ℕ → TaskStore H → List TaskSnapshot
    page_at offset s = snapshots H (take page_size (drop offset (listed s)))

    length-page_at :
        (offset : ℕ) (s : TaskStore H)
        → length (page_at offset s) ≡ min page_size (length (listed s) - offset)
    unfolding page_at
    length-page_at offset s =
        length-map (λ (id, e). snapshot H id e) (take page_size (drop offset (listed s)))
        ∙ length-take page_size (drop offset (listed s))
        ∙ ap (min page_size) (length-drop offset (listed s))

    page_at-then :
        (offset : ℕ) (s : TaskStore H)
        → page_at offset s ++ snapshots H (drop (offset + page_size) (listed s))
          ≡ snapshots H (drop offset (listed s))
    unfolding page_at
    page_at-then offset s =
        let rest = drop offset (listed s) in
        ap (λ more. page_at offset s ++ snapshots H more)
          (sym (drop-drop offset page_size (listed s)))
        ∙ sym (map-append (λ (id, e). snapshot H id e) (take page_size rest) (drop page_size rest))
        ∙ ap (snapshots H) (take-then-drop page_size rest)

    next_of : ℕ → TaskStore H → ℕ
    next_of offset s = offset + length (page_at offset s)

    page-more :
        (offset : ℕ) (s : TaskStore H)
        → ltb (next_of offset s) (length (listed s)) ≡ true
        → page_from H offset page_size (listed s)
          ≡ (page_at offset s, some (to_string (next_of offset s)))
    unfolding page_from page_at next_of
    page-more offset s h = rw (h, page_from) refl

    page-last :
        (offset : ℕ) (s : TaskStore H)
        → ltb (next_of offset s) (length (listed s)) ≡ false
        → page_from H offset page_size (listed s) ≡ (page_at offset s, none)
    unfolding page_from page_at next_of
    page-last offset s h = rw (h, page_from) refl

    follow-from :
        (fuel offset : ℕ) (cursor : Option String) (s : TaskStore H)
        → offset_of H cursor ≡ some offset
        → length (listed s) < usize_bound
        → offset ≤ length (listed s)
        → length (listed s) - offset < fuel
        → follow fuel now session cursor page_size s ≡ some (snapshots H (drop offset (listed s)))
    unfolding follow next_of
    follow-from zero offset cursor s at bound within enough = absurd (omega (arith, enough))
    follow-from (suc fuel) offset cursor s at bound within enough =
        let size = length-page_at offset s in
        let next = next_of offset s in
        let answered = list-at offset cursor s at in
        elim (Bool-cases (ltb next (length (listed s)))) [
          | inl more ↦
              let e : next ≡ offset + page_size = ground (arith, size) in
              let later : follow fuel now session (some (to_string next)) page_size (purged s)
                  ≡ some (snapshots H (drop (offset + page_size) (listed s))) =
                follow-from fuel next (some (to_string next)) (purged s)
                  (parse-to_string next (ground (arith, bound))) (rw (listed-purged s) bound)
                  (rw (listed-purged s) (ground arith))
                  (rw (listed-purged s) (ground (arith, size, enough, positive)))
                ∙ ap (λ all. some (snapshots H (drop next all))) (listed-purged s)
                ∙ ap (λ n. some (snapshots H (drop n (listed s)))) e in
              rw (answered.1, follow)
                (rw (page-more offset s more) (
                  rw answered.0
                    (rw later (rw (page-more offset s more) (ap some (page_at-then offset s))))))
          | inr last ↦
              let gone : drop (offset + page_size) (listed s) ≡ [] =
                drop_past (offset + page_size) (listed s) (ground (arith, size)) in
              rw (answered.1, follow)
                (rw (page-last offset s last) (
                  rw (page-last offset s last) (
                    ap some (
                      sym (append_nil (page_at offset s))
                      ∙ ap (λ more. page_at offset s ++ snapshots H more) (sym gone)
                      ∙ page_at-then offset s))))
        ]

    -- With a positive page size, a client that lists from the start and follows the cursors at
    -- one time gets every task of its session in the order of the registry's list, after at most
    -- as many requests as there are tasks, and one more.
    pub follow-list :
        (s : TaskStore H)
        → length (of_session H session (live H now s.inner)) < usize_bound
        → follow
            (suc (length (of_session H session (live H now s.inner))))
            now
            session
            none
            page_size
            s
          ≡ some (snapshots H (of_session H session (live H now s.inner)))
    follow-list s bound =
        follow-from (suc (length (listed s))) 0 none s refl bound (omega arith) (omega arith)
