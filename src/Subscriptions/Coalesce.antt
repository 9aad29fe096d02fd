-- ===== src/Subscriptions/Coalesce.antt =====
-- crates/turbomcp-server/src/subscriptions.rs, `schedule_list_changed`: bursts of changes of one
-- kind collapse into one publication. The spawned tasks that sleep are the list `flushes`; which of
-- them wakes next is up to the scheduler.
use turbomcp.Prelude.{
  ℕ, ◌+◌, ◌≤◌, ◌≡◌, ◌∙◌, ap, refl, Bool, true, false, List, [], ◌∷◌, arith, if◌then◌else◌,
  Bool-cases, inl, inr,
}
use turbomcp.Subscriptions.Registry.{ListChangedKind, tools, resources, prompts}

abbrev pub same_kind : ListChangedKind → ListChangedKind → Bool
same_kind tools tools = true
same_kind resources resources = true
same_kind prompts prompts = true
same_kind _ _ = false

-- `pending`, by the slots of the kinds.
pub record Pending : Type 0 where
  pub tools_pending : Bool
  pub resources_pending : Bool
  pub prompts_pending : Bool

unfoldable pub load : ListChangedKind → Pending → Bool
load tools p = p.tools_pending
load resources p = p.resources_pending
load prompts p = p.prompts_pending

unfoldable pub set : ListChangedKind → Bool → Pending → Pending
set tools b p = record p { tools_pending = b }
set resources b p = record p { resources_pending = b }
set prompts b p = record p { prompts_pending = b }

pub record Scheduler : Type 0 where
  pub pending : Pending
  pub flushes : List ListChangedKind
  -- The publications that have begun, after their flag was cleared, and are not made yet.
  pub publishing : List ListChangedKind
  -- The publications so far, the latest first.
  pub published : List ListChangedKind

abbrev pub idle : Scheduler
idle = record {
  pending = record { tools_pending = false; resources_pending = false; prompts_pending = false };
  flushes = [];
  publishing = [];
  published = [];
}

unfoldable pub schedule_list_changed : ListChangedKind → Scheduler → Scheduler
unfolding load set
schedule_list_changed kind s =
    if load kind s.pending
    then s
    else record s { pending = set kind true s.pending; flushes = kind ∷ s.flushes }

-- A sleeping task wakes and clears its flag.
unfoldable pub flush : ListChangedKind → List ListChangedKind → Scheduler → Scheduler
unfolding set
flush kind rest s = record s {
  pending = set kind false s.pending;
  flushes = rest;
  publishing = kind ∷ s.publishing;
}

-- And then it publishes.
unfoldable pub flush_publish : ListChangedKind → List ListChangedKind → Scheduler → Scheduler
flush_publish kind rest s = record s { publishing = rest; published = kind ∷ s.published }

abbrev pub count : ListChangedKind → List ListChangedKind → ℕ
count k [] = 0
count k (j ∷ js) = (if same_kind j k then 1 else 0) + count k js

-- Taking one sleeping task out of the list.
pub data Picks : ListChangedKind → List ListChangedKind → List ListChangedKind → Type 0 where
  first : (k : ListChangedKind) (ks : List ListChangedKind) → Picks k (k ∷ ks) ks
  later :
      (k j : ListChangedKind) (ks rest : List ListChangedKind)
      → Picks k ks rest
      → Picks k (j ∷ ks) (j ∷ rest)

pub data Step : Scheduler → Scheduler → Type 0 where
  scheduled : (k : ListChangedKind) (s : Scheduler) → Step s (schedule_list_changed k s)
  woken :
      (k : ListChangedKind) (rest : List ListChangedKind) (s : Scheduler)
      → Picks k s.flushes rest
      → Step s (flush k rest s)
  sent :
      (k : ListChangedKind) (rest : List ListChangedKind) (s : Scheduler)
      → Picks k s.publishing rest
      → Step s (flush_publish k rest s)

pub data Reachable : Scheduler → Type 0 where
  start : Reachable idle
  next : (s s' : Scheduler) → Reachable s → Step s s' → Reachable s'

abbrev pub to_count : Bool → ℕ
to_count true = 1
to_count false = 0

load-set :
    (k j : ListChangedKind) (b : Bool) (p : Pending)
    → load j (set k b p) ≡ (if same_kind k j then b else load j p)
unfolding load set
load-set tools tools b p = refl
load-set tools resources b p = refl
load-set tools prompts b p = refl
load-set resources tools b p = refl
load-set resources resources b p = refl
load-set resources prompts b p = refl
load-set prompts tools b p = refl
load-set prompts resources b p = refl
load-set prompts prompts b p = refl

count-Picks :
    (k j : ListChangedKind) (ks rest : List ListChangedKind)
    → Picks k ks rest
    → count j ks ≡ (if same_kind k j then 1 else 0) + count j rest
count-Picks _ j _ _ (first k ks) = refl
count-Picks _ j _ _ (later k i ks rest p) = omega (arith, count-Picks k j ks rest p)

same_kind_refl : (k : ListChangedKind) → same_kind k k ≡ true
same_kind_refl tools = refl
same_kind_refl resources = refl
same_kind_refl prompts = refl

load-schedule :
    (k : ListChangedKind) (s : Scheduler) → load k (schedule_list_changed k s).pending ≡ true
unfolding schedule_list_changed
load-schedule k s = elim (Bool-cases (load k s.pending)) [
  | inl set_already ↦ rw (set_already, schedule_list_changed) set_already
  | inr clear ↦
      rw (clear, schedule_list_changed) (load-set k k true s.pending ∙ rw (same_kind_refl k) refl)
]

abbrev FlagsMatch : Scheduler → Type 0
FlagsMatch s = (k : ListChangedKind) → count k s.flushes ≡ to_count (load k s.pending)

same_kind_eq : (k j : ListChangedKind) → same_kind k j ≡ true → k ≡ j
same_kind_eq tools tools h = refl
same_kind_eq resources resources h = refl
same_kind_eq prompts prompts h = refl
same_kind_eq tools resources h = cc
same_kind_eq tools prompts h = cc
same_kind_eq resources tools h = cc
same_kind_eq resources prompts h = cc
same_kind_eq prompts tools h = cc
same_kind_eq prompts resources h = cc

Step-FlagsMatch : (s s' : Scheduler) → Step s s' → FlagsMatch s → FlagsMatch s'
unfolding schedule_list_changed flush flush_publish
Step-FlagsMatch _ _ (sent k rest s p) h j = h j
Step-FlagsMatch _ _ (scheduled k s) h j = elim (Bool-cases (load k s.pending)) [
  | inl set_already ↦ rw (set_already, schedule_list_changed) (h j)
  | inr clear ↦
      rw (clear, schedule_list_changed)
        (elim (Bool-cases (same_kind k j)) [
          | inl same ↦
              let e = same_kind_eq k j same in
              let none_yet : count j s.flushes ≡ 0 = rw (← e) (h k ∙ ap to_count clear) in
              ground (arith, load-set k j true s.pending, none_yet)
          | inr other ↦ ground (arith, load-set k j true s.pending, h j)
        ])
]
Step-FlagsMatch _ _ (woken k rest s p) h j = elim (Bool-cases (same_kind k j)) [
  | inl same ↦ ground (
    arith,
    load-set k j false s.pending,
    h j,
    count-Picks k j s.flushes rest p,
    Bool-cases (load j s.pending),
  )
  | inr other ↦ ground (arith, load-set k j false s.pending, h j, count-Picks k j s.flushes rest p)
]

Reachable-FlagsMatch : (s : Scheduler) → Reachable s → FlagsMatch s
unfolding load
Reachable-FlagsMatch _ start tools = refl
Reachable-FlagsMatch _ start resources = refl
Reachable-FlagsMatch _ start prompts = refl
Reachable-FlagsMatch _ (next s s' r step) k = Step-FlagsMatch s s' step (Reachable-FlagsMatch s r) k

schedule-again :
    (k : ListChangedKind) (s : Scheduler) → load k s.pending ≡ true → schedule_list_changed k s ≡ s
unfolding schedule_list_changed
schedule-again k s already = rw (already, schedule_list_changed) refl

schedule-kept :
    (k : ListChangedKind) (s : Scheduler)
    → ((schedule_list_changed k s).published ≡ s.published)
      × ((schedule_list_changed k s).publishing ≡ s.publishing)
unfolding schedule_list_changed
schedule-kept k s = elim (Bool-cases (load k s.pending)) [
  | inl already ↦ rw (already, schedule_list_changed) (refl, refl)
  | inr clear ↦ rw (clear, schedule_list_changed) (refl, refl)
]

-- Steps from one state to another, of which some number schedules a change of the kind.
pub data Run (k : ListChangedKind) : ℕ → Scheduler → Scheduler → Type 0 where
  stop : (s : Scheduler) → Run k 0 s s
  change :
      (n : ℕ) (j : ListChangedKind) (s s' : Scheduler)
      → Run k n (schedule_list_changed j s) s'
      → Run k ((if same_kind j k then 1 else 0) + n) s s'
  wake :
      (n : ℕ) (j : ListChangedKind) (rest : List ListChangedKind) (s s' : Scheduler)
      → Picks j s.flushes rest
      → Run k n (flush j rest s) s'
      → Run k n s s'
  send :
      (n : ℕ) (j : ListChangedKind) (rest : List ListChangedKind) (s s' : Scheduler)
      → Picks j s.publishing rest
      → Run k n (flush_publish j rest s) s'
      → Run k n s s'

-- The publications of a kind, made, begun or due.
abbrev total : ListChangedKind → Scheduler → ℕ
total k s = count k s.published + count k s.publishing + count k s.flushes

total-schedule :
    (k j : ListChangedKind) (s : Scheduler)
    → (total k s ≤ total k (schedule_list_changed j s))
      × (total k (schedule_list_changed j s) ≤ (if same_kind j k then 1 else 0) + total k s)
unfolding schedule_list_changed
total-schedule k j s = elim (Bool-cases (load j s.pending)) [
  | inl already ↦ rw (already, schedule_list_changed) (ground arith, ground arith)
  | inr clear ↦ rw (clear, schedule_list_changed) (ground arith, ground arith)
]

total-flush :
    (k j : ListChangedKind) (rest : List ListChangedKind) (s : Scheduler)
    → Picks j s.flushes rest
    → total k (flush j rest s) ≡ total k s
unfolding flush
total-flush k j rest s p = ground (arith, count-Picks j k s.flushes rest p)

total-flush_publish :
    (k j : ListChangedKind) (rest : List ListChangedKind) (s : Scheduler)
    → Picks j s.publishing rest
    → total k (flush_publish j rest s) ≡ total k s
unfolding flush_publish
total-flush_publish k j rest s p = ground (arith, count-Picks j k s.publishing rest p)

total-Run :
    (k : ListChangedKind) (n : ℕ) (s s' : Scheduler)
    → Run k n s s'
    → (total k s ≤ total k s') × (total k s' ≤ n + total k s)
total-Run k _ _ _ (stop s) = (omega arith, omega arith)
total-Run k _ _ _ (change n j s s' r) =
    let (a, b) = total-Run k n (schedule_list_changed j s) s' r in
    let (c, d) = total-schedule k j s in (omega arith, omega arith)
total-Run k _ _ _ (wake n j rest s s' p r) =
    let (a, b) = total-Run k n (flush j rest s) s' r in
    let e = total-flush k j rest s p in (omega arith, omega arith)
total-Run k _ _ _ (send n j rest s s' p r) =
    let (a, b) = total-Run k n (flush_publish j rest s) s' r in
    let e = total-flush_publish k j rest s p in (omega arith, omega arith)

-- However changes are scheduled and tasks wake and publish, a change that is scheduled leaves
-- exactly one sleeping task of its kind, and a second change before that task wakes leaves the
-- state as it is. Once nothing of the kind sleeps or is about to be published, at least one
-- publication was made beyond those made or begun before the change, and at most one more for each
-- change of the kind that was scheduled after it: none goes unpublished, and alone it is published
-- once.
pub schedule-coalesced :
    (k : ListChangedKind) (n : ℕ) (s s' : Scheduler)
    → Reachable s
    → Run k n (schedule_list_changed k s) s'
    → count k s'.flushes ≡ 0
    → count k s'.publishing ≡ 0
    → let before = count k s.published + count k s.publishing in
      (count k (schedule_list_changed k s).flushes ≡ 1)
      × (schedule_list_changed k (schedule_list_changed k s) ≡ schedule_list_changed k s)
      × (before + 1 ≤ count k s'.published)
      × (count k s'.published ≤ before + 1 + n)
schedule-coalesced k n s s' reachable run awake quiet =
    let after = schedule_list_changed k s in
    let flags = Reachable-FlagsMatch after (next s _ reachable (scheduled k s)) k in
    let one : count k after.flushes ≡ 1 = flags ∙ ap to_count (load-schedule k s) in
    let (least, most) = total-Run k n after s' run in
    let p = ap (count k) (schedule-kept k s).0 in
    let q = ap (count k) (schedule-kept k s).1 in
    (one, schedule-again k after (load-schedule k s), omega (arith, p, q), omega (arith, p, q))
