-- ===== src/ScheduledRuns/Guards.antt =====
-- The locks of the launches, and the runs that the background tasks own.
use mathlib.Core.List.{map-append}
use agents_universe.Prelude.{
  ◌≤◌, ◌≡◌, sym, Bool, true, false, not, List, [], ◌∷◌, ◌++◌, All, All-map, All-append, All-split,
  arith,
}
use agents_universe.Prelude.Text.{Text}
use agents_universe.Prelude.TextSet.{same_iff, elem, distinct, distinct_middle}
use agents_universe.ScheduledRuns.{ScheduledRun, update_run}
use agents_universe.ScheduledRuns.Launches.{
  Phase, locked, looked, skipping, storing, Launch, Stage, queued, working, delivering, failing,
  Work, work_ids, lock_ids,
}
use agents_universe.ScheduledRuns.Counts.{
  counts, weight, active_count, active_count-append, IsCalm, AreActive, AreActive-update_other,
}

-- The launch has seen that its schedule has no active run.
unfoldable pub is_clear : Phase → Bool
is_clear locked = false
is_clear (looked active) = not active
is_clear (skipping error) = false
is_clear storing = true

abbrev pub Clear : List ScheduledRun → Launch → Type 0
Clear runs l = is_clear l.phase ≡ true → active_count l.schedule_id runs ≡ 0

-- Of each schedule at most one launch goes on at a time.
pub record IsGuarded (launches : List Launch) (runs : List ScheduledRun) : Type 0 where
  pub apart : distinct (lock_ids launches) ≡ true
  pub clear : All (Clear runs) launches

pub guarded-middle :
    (before after : List Launch) (l : Launch) (runs : List ScheduledRun)
    → IsGuarded (before ++ l ∷ after) runs
    → IsGuarded (before ++ after) runs
      × (elem l.schedule_id (lock_ids (before ++ after)) ≡ false)
      × Clear runs l
unfolding lock_ids
guarded-middle before after l runs g =
    let (first, rest) = All-split (Clear runs) before (l ∷ after) g.clear in
    let split : distinct (lock_ids before ++ l.schedule_id ∷ lock_ids after) ≡ true =
      rw (← map-append (λ (l : Launch). l.schedule_id) before (l ∷ after)) g.apart in
    let facts = distinct_middle (lock_ids before) (lock_ids after) l.schedule_id in
    (
      record {
        apart =
            rw (map-append (λ (l : Launch). l.schedule_id) before after)
              (ground (arith, split, facts));
        clear = All-append (Clear runs) before after first rest.1;
      },
      rw (map-append (λ (l : Launch). l.schedule_id) before after) (ground (arith, split, facts)),
      rest.0,
    )

pub guarded-put :
    (before after : List Launch) (l : Launch) (runs : List ScheduledRun)
    → IsGuarded (before ++ after) runs
    → elem l.schedule_id (lock_ids (before ++ after)) ≡ false
    → Clear runs l
    → IsGuarded (before ++ l ∷ after) runs
unfolding lock_ids
guarded-put before after l runs g new c =
    let (first, rest) = All-split (Clear runs) before after g.clear in
    let joined = map-append (λ (l : Launch). l.schedule_id) before after in
    let apart : distinct (lock_ids before ++ lock_ids after) ≡ true = rw (← joined) g.apart in
    let absent : elem l.schedule_id (lock_ids before ++ lock_ids after) ≡ false =
      rw (← joined) new in
    record {
      apart = rw (map-append (λ (l : Launch). l.schedule_id) before (l ∷ after)) (
          ground (
            arith,
            apart,
            absent,
            distinct_middle (lock_ids before) (lock_ids after) l.schedule_id,
          ));
      clear = All-append (Clear runs) before (l ∷ after) first (c, rest);
    }

pub guarded-runs :
    (launches : List Launch) (runs runs' : List ScheduledRun)
    → ((id : Text) → active_count id runs' ≤ active_count id runs)
    → IsGuarded launches runs
    → IsGuarded launches runs'
guarded-runs launches runs runs' less g = record {
  apart = g.apart;
  clear =
      All-map (Clear runs) (Clear runs') (λ l c e. omega (arith, less l.schedule_id, c e)) launches
        g.clear;
}

-- A run of another schedule is no hindrance.
Clear-add :
    (ls : List Launch) (runs : List ScheduledRun) (r : ScheduledRun)
    → elem r.schedule_id (lock_ids ls) ≡ false
    → All (Clear runs) ls
    → All (Clear (runs ++ r ∷ [])) ls
unfolding elem lock_ids active_count counts weight
Clear-add [] runs r new c = tt
Clear-add (l ∷ ls) runs r new c = (
  (λ e. ground (
    arith,
    c.0 e,
    active_count-append l.schedule_id runs (r ∷ []),
    same_iff r.schedule_id l.schedule_id,
    same_iff l.schedule_id r.schedule_id,
  )),
  Clear-add ls runs r (ground arith) c.1,
)

pub guarded-add :
    (launches : List Launch) (runs : List ScheduledRun) (r : ScheduledRun)
    → elem r.schedule_id (lock_ids launches) ≡ false
    → IsGuarded launches runs
    → IsGuarded launches (runs ++ r ∷ [])
guarded-add launches runs r new g = record {
  apart = g.apart;
  clear = Clear-add launches runs r new g.clear;
}

-- The background tasks have different runs, and one that is to start or to end its run has an active
-- one.
unfoldable pub is_open : Stage → Bool
is_open queued = true
is_open (working notify) = true
is_open delivering = false
is_open (failing message) = false

abbrev pub Open : List ScheduledRun → Work → Type 0
Open runs w = is_open w.stage ≡ true → AreActive w.run_id runs

pub record IsOwned (work : List Work) (runs : List ScheduledRun) : Type 0 where
  pub apart : distinct (work_ids work) ≡ true
  pub active : All (Open runs) work

pub IsOwned-middle :
    (before after : List Work) (w : Work) (runs : List ScheduledRun)
    → IsOwned (before ++ w ∷ after) runs
    → IsOwned (before ++ after) runs
      × (elem w.run_id (work_ids (before ++ after)) ≡ false)
      × Open runs w
unfolding work_ids
IsOwned-middle before after w runs g =
    let (first, rest) = All-split (Open runs) before (w ∷ after) g.active in
    let split : distinct (work_ids before ++ w.run_id ∷ work_ids after) ≡ true =
      rw (← map-append (λ (w : Work). w.run_id) before (w ∷ after)) g.apart in
    let facts = distinct_middle (work_ids before) (work_ids after) w.run_id in
    (
      record {
        apart =
            rw (map-append (λ (w : Work). w.run_id) before after) (ground (arith, split, facts));
        active = All-append (Open runs) before after first rest.1;
      },
      rw (map-append (λ (w : Work). w.run_id) before after) (ground (arith, split, facts)),
      rest.0,
    )

pub IsOwned-put :
    (before after : List Work) (w : Work) (runs : List ScheduledRun)
    → IsOwned (before ++ after) runs
    → elem w.run_id (work_ids (before ++ after)) ≡ false
    → Open runs w
    → IsOwned (before ++ w ∷ after) runs
unfolding work_ids
IsOwned-put before after w runs g new c =
    let (first, rest) = All-split (Open runs) before after g.active in
    let joined = map-append (λ (w : Work). w.run_id) before after in
    let apart : distinct (work_ids before ++ work_ids after) ≡ true = rw (← joined) g.apart in
    let absent : elem w.run_id (work_ids before ++ work_ids after) ≡ false = rw (← joined) new in
    record {
      apart = rw (map-append (λ (w : Work). w.run_id) before (w ∷ after)) (
          ground
            (arith, apart, absent, distinct_middle (work_ids before) (work_ids after) w.run_id));
      active = All-append (Open runs) before (w ∷ after) first (c, rest);
    }

active-update :
    (ws : List Work) (runs : List ScheduledRun) (id : Text) (f : ScheduledRun → ScheduledRun)
    → IsCalm f
    → elem id (work_ids ws) ≡ false
    → All (Open runs) ws
    → All (Open (update_run id f runs)) ws
unfolding elem work_ids
active-update [] runs id f calm new a = tt
active-update (w ∷ ws) runs id f calm new a = (
  (λ e.
      AreActive-update_other w.run_id id f runs calm
        (λ e. absurd (ground (arith, new, (same_iff w.run_id id).1 (sym e)))) (a.0 e)),
  active-update ws runs id f calm (ground arith) a.1,
)

-- A write to the row of another run.
pub IsOwned-update :
    (work : List Work) (runs : List ScheduledRun) (id : Text) (f : ScheduledRun → ScheduledRun)
    → IsCalm f
    → elem id (work_ids work) ≡ false
    → IsOwned work runs
    → IsOwned work (update_run id f runs)
IsOwned-update work runs id f calm new g = record {
  apart = g.apart;
  active = active-update work runs id f calm new g.active;
}

pub IsOwned-runs :
    (work : List Work) (runs runs' : List ScheduledRun)
    → ((id : Text) → AreActive id runs → AreActive id runs')
    → IsOwned work runs
    → IsOwned work runs'
IsOwned-runs work runs runs' k g = record {
  apart = g.apart;
  active = All-map (Open runs) (Open runs') (λ w a e. k w.run_id (a e)) work g.active;
}

active-add :
    (ws : List Work) (runs : List ScheduledRun) (r : ScheduledRun)
    → elem r.run_id (work_ids ws) ≡ false
    → All (Open runs) ws
    → All (Open (runs ++ r ∷ [])) ws
unfolding elem work_ids
active-add [] runs r new a = tt
active-add (w ∷ ws) runs r new a = (
  (λ e.
      All-append _ runs (r ∷ []) (a.0 e)
        ((λ e. absurd (ground (arith, new, (same_iff w.run_id r.run_id).1 (sym e)))), tt)),
  active-add ws runs r (ground arith) a.1,
)

pub IsOwned-add :
    (work : List Work) (runs : List ScheduledRun) (r : ScheduledRun)
    → elem r.run_id (work_ids work) ≡ false
    → IsOwned work runs
    → IsOwned work (runs ++ r ∷ [])
IsOwned-add work runs r new g = record {
  apart = g.apart;
  active = active-add work runs r new g.active;
}
