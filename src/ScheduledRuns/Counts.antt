-- ===== src/ScheduledRuns/Counts.antt =====
-- How many runs of a schedule are active, behind each write.
use agents_universe.Prelude.{
  ℕ, ◌+◌, ◌≤◌, ◌≡◌, ◌≢◌, refl, sym, ◌∙◌, Bool, true, false, ◌&&◌, none, some, List, [], ◌∷◌, ◌++◌,
  if◌then◌else◌, keep, keep-yes, keep-no, All, arith, Bool-cases, inl, inr,
}
use agents_universe.Prelude.Text.{Text}
use agents_universe.Prelude.TextSet.{same, same_iff, elem, distinct}
use agents_universe.Prelude.Fallible.{some_inj}
use agents_universe.ScheduledRuns.{
  ScheduledRun, RunStatus, pending, running, completed, failed, skipped, is_active, is_over,
  has_active, find_run, update_run, fail, settle_runs,
}
use agents_universe.ScheduledRuns.Launches.{run_ids}

unfoldable pub counts : Text → ScheduledRun → Bool
counts id r = is_active r.status && same r.schedule_id id

unfoldable pub weight : Bool → ℕ
weight true = 1
weight false = 0

-- The active runs of the schedule.
unfoldable pub active_count : Text → List ScheduledRun → ℕ
active_count id [] = 0
active_count id (r ∷ runs) = weight (counts id r) + active_count id runs

pub active_count-append :
    (id : Text) (xs ys : List ScheduledRun)
    → active_count id (xs ++ ys) ≡ active_count id xs + active_count id ys
unfolding active_count
active_count-append id [] ys = omega arith
active_count-append id (r ∷ xs) ys = omega (arith, active_count-append id xs ys)

pub active_count-zero :
    (id : Text) (runs : List ScheduledRun) → has_active id runs ≡ false → active_count id runs ≡ 0
unfolding active_count has_active counts weight
active_count-zero id [] h = refl
active_count-zero id (r ∷ runs) h = ground (arith, active_count-zero id runs)

pub active_count-keep :
    (id : Text) (p : ScheduledRun → Bool) (runs : List ScheduledRun)
    → active_count id (keep p runs) ≤ active_count id runs
unfolding active_count
active_count-keep id p [] = omega arith
active_count-keep id p (r ∷ runs) = elim (Bool-cases (p r)) [
  | inl stays ↦ rw (keep-yes p r runs stays) (omega (arith, active_count-keep id p runs))
  | inr goes ↦ rw (keep-no p r runs goes) (omega (arith, active_count-keep id p runs))
]

-- A write that keeps the ids of the row, and makes no run active.
pub record IsCalm (f : ScheduledRun → ScheduledRun) : Type 0 where
  pub run : (r : ScheduledRun) → (f r).run_id ≡ r.run_id
  pub of : (r : ScheduledRun) → (f r).schedule_id ≡ r.schedule_id

-- Each row of the run is active.
abbrev pub AreActive : Text → List ScheduledRun → Type 0
AreActive id = All (λ r. r.run_id ≡ id → is_active r.status ≡ true)

-- The write makes no row of the run active that is not.
abbrev pub WakesNone : (ScheduledRun → ScheduledRun) → Text → List ScheduledRun → Type 0
WakesNone f id =
    All (λ r. r.run_id ≡ id → is_active (f r).status ≡ true → is_active r.status ≡ true)

pub active_count-update :
    (sid id : Text) (f : ScheduledRun → ScheduledRun) (runs : List ScheduledRun)
    → IsCalm f
    → WakesNone f id runs
    → active_count sid (update_run id f runs) ≤ active_count sid runs
unfolding active_count update_run counts weight
active_count-update sid id f [] c w = omega arith
active_count-update sid id f (r ∷ runs) c w =
    ground (arith, c.of r, w.0, same_iff r.run_id id, active_count-update sid id f runs c w.1)

pub AreActive-update_other :
    (id id' : Text) (f : ScheduledRun → ScheduledRun) (runs : List ScheduledRun)
    → IsCalm f
    → id' ≢ id
    → AreActive id runs
    → AreActive id (update_run id' f runs)
unfolding update_run
AreActive-update_other id id' f [] c ne a = tt
AreActive-update_other id id' f (r ∷ runs) c ne a =
    let rest = AreActive-update_other id id' f runs c ne a.1 in
    elim (Bool-cases (same r.run_id id')) [
      | inl hit ↦
          rw hit
            ((λ e. absurd (ne (sym ((same_iff r.run_id id').0 hit) ∙ (sym (c.run r) ∙ e)))), rest)
      | inr miss ↦ rw miss (a.0, rest)
    ]

pub AreActive-update_self :
    (id : Text) (f : ScheduledRun → ScheduledRun) (runs : List ScheduledRun)
    → ((r : ScheduledRun) → is_active (f r).status ≡ true)
    → AreActive id (update_run id f runs)
unfolding update_run
AreActive-update_self id f [] h = tt
AreActive-update_self id f (r ∷ runs) h =
    let rest = AreActive-update_self id f runs h in
    elim (Bool-cases (same r.run_id id)) [
      | inl hit ↦ rw hit ((λ e. h r), rest)
      | inr miss ↦ rw miss ((λ e. absurd (ground (arith, (same_iff r.run_id id).1 e, miss))), rest)
    ]

pub AreActive-absent :
    (id : Text) (runs : List ScheduledRun) → elem id (run_ids runs) ≡ false → AreActive id runs
unfolding elem run_ids
AreActive-absent id [] h = tt
AreActive-absent id (r ∷ runs) h = (
  (λ e. absurd (ground (arith, (same_iff r.run_id id).1 e, h))),
  AreActive-absent id runs (ground arith),
)

pub run_ids-update :
    (id : Text) (f : ScheduledRun → ScheduledRun) (runs : List ScheduledRun)
    → IsCalm f
    → run_ids (update_run id f runs) ≡ run_ids runs
unfolding update_run run_ids
run_ids-update id f [] c = refl
run_ids-update id f (r ∷ runs) c = ground (arith, c.run r, run_ids-update id f runs c)

-- Rows that are over stay as they are.

pub find-update_other :
    (id id' : Text) (f : ScheduledRun → ScheduledRun) (runs : List ScheduledRun)
    → IsCalm f
    → id' ≢ id
    → find_run id (update_run id' f runs) ≡ find_run id runs
unfolding find_run update_run
find-update_other id id' f [] c ne = refl
find-update_other id id' f (r ∷ runs) c ne = ground (
  arith,
  c.run r,
  same_iff r.run_id id,
  same_iff r.run_id id',
  ne,
  find-update_other id id' f runs c ne,
)

pub find-AreActive :
    (id : Text) (runs : List ScheduledRun) (r : ScheduledRun)
    → AreActive id runs
    → find_run id runs ≡ some r
    → is_active r.status ≡ true
unfolding find_run
find-AreActive id [] r a h = cc
find-AreActive id (q ∷ runs) r a h =
    ground (arith, a.0, same_iff q.run_id id, find-AreActive id runs r a.1)

status_over : (x : RunStatus) → is_active x ≡ false → is_over x ≡ true
unfolding is_active is_over
status_over pending h = cc
status_over running h = cc
status_over completed h = refl
status_over failed h = refl
status_over skipped h = refl

fail-over :
    (r : ScheduledRun) (message : Text) (now : ℕ)
    → is_active r.status ≡ false
    → fail message now r ≡ r
unfolding fail
fail-over r message now h = rw (status_over r.status h) refl

fail-id : (r : ScheduledRun) (message : Text) (now : ℕ) → (fail message now r).run_id ≡ r.run_id
unfolding fail
fail-id r message now = ground arith

if_same {ℓ} : {A : Type ℓ} (b : Bool) {x y : A} → x ≡ y → (if b then x else y) ≡ y
if_same true e = e
if_same false e = refl

-- A failure does not touch a run that is over.
pub find-fail :
    (id id' message : Text) (now : ℕ) (runs : List ScheduledRun) (r : ScheduledRun)
    → find_run id runs ≡ some r
    → is_active r.status ≡ false
    → find_run id (update_run id' (fail message now) runs) ≡ some r
unfolding find_run update_run
find-fail id id' message now [] r h over = cc
find-fail id id' message now (q ∷ runs) r h over = elim (Bool-cases (same q.run_id id)) [
  | inl hit ↦
      let one : q ≡ r = some_inj (rw (hit, find_run) at h) in
      let idle : fail message now q ≡ q = fail-over q message now (rw one over) in
      rw (if_same (same q.run_id id') idle, hit) (rw one refl)
  | inr miss ↦
      let rest = find-fail id id' message now runs r (rw (miss, find_run) at h) over in
      let named = fail-id q message now in ground (arith, miss, rest, named)
]

pub find-append :
    (id : Text) (xs ys : List ScheduledRun) (r : ScheduledRun)
    → find_run id xs ≡ some r
    → find_run id (xs ++ ys) ≡ some r
unfolding find_run
find-append id [] ys r h = cc
find-append id (q ∷ xs) ys r h = ground (arith, find-append id xs ys r)

pub find-absent :
    (id : Text) (runs : List ScheduledRun)
    → elem id (run_ids runs) ≡ false
    → find_run id runs ≡ none
unfolding find_run elem run_ids
find-absent id [] h = refl
find-absent id (q ∷ runs) h = ground (arith, find-absent id runs)

pub elem-keep_runs :
    (id : Text) (p : ScheduledRun → Bool) (runs : List ScheduledRun)
    → elem id (run_ids runs) ≡ false
    → elem id (run_ids (keep p runs)) ≡ false
unfolding elem run_ids
elem-keep_runs id p [] h = refl
elem-keep_runs id p (q ∷ runs) h = elim (Bool-cases (p q)) [
  | inl stays ↦ rw (keep-yes p q runs stays) (ground (arith, elem-keep_runs id p runs))
  | inr goes ↦ rw (keep-no p q runs goes) (ground (arith, elem-keep_runs id p runs))
]

pub distinct-keep_runs :
    (p : ScheduledRun → Bool) (runs : List ScheduledRun)
    → distinct (run_ids runs) ≡ true
    → distinct (run_ids (keep p runs)) ≡ true
unfolding distinct run_ids
distinct-keep_runs p [] u = refl
distinct-keep_runs p (q ∷ runs) u = elim (Bool-cases (p q)) [
  | inl stays ↦
      rw (keep-yes p q runs stays)
        (ground (arith, elem-keep_runs q.run_id p runs, distinct-keep_runs p runs))
  | inr goes ↦ rw (keep-no p q runs goes) (ground (arith, distinct-keep_runs p runs))
]

-- A row that is kept is found again.
pub find-keep :
    (id : Text) (p : ScheduledRun → Bool) (runs : List ScheduledRun) (r : ScheduledRun)
    → p r ≡ true
    → find_run id runs ≡ some r
    → find_run id (keep p runs) ≡ some r
unfolding find_run
find-keep id p [] r stay h = cc
find-keep id p (q ∷ runs) r stay h = elim (Bool-cases (p q)) [
  | inl stays ↦ rw (keep-yes p q runs stays) (ground (arith, find-keep id p runs r))
  | inr goes ↦ rw (keep-no p q runs goes) (elim (Bool-cases (same q.run_id id)) [
    | inl hit ↦ let one : q ≡ r = some_inj (rw hit at h) in absurd (ground (arith, rw one at goes))
    | inr miss ↦ find-keep id p runs r stay (rw miss at h)
  ])
]

pub AreActive-keep :
    (id : Text) (p : ScheduledRun → Bool) (runs : List ScheduledRun)
    → AreActive id runs
    → AreActive id (keep p runs)
AreActive-keep id p [] a = tt
AreActive-keep id p (q ∷ runs) a = elim (Bool-cases (p q)) [
  | inl stays ↦ rw (keep-yes p q runs stays) (a.0, AreActive-keep id p runs a.1)
  | inr goes ↦ rw (keep-no p q runs goes) (AreActive-keep id p runs a.1)
]

-- No run is active behind the sweep, whose ids are those before it.
pub settle_lem :
    (now : ℕ) (runs : List ScheduledRun)
    → ((id : Text) → active_count id (settle_runs now runs).0 ≡ 0)
      × (run_ids (settle_runs now runs).0 ≡ run_ids runs)
unfolding settle_runs active_count counts weight run_ids is_active
settle_lem now [] = ((λ id. refl), refl)
settle_lem now (r ∷ runs) =
    let (none_left, same_ids) = settle_lem now runs in
    ((λ id. ground (arith, none_left id)), ground (arith, same_ids))
