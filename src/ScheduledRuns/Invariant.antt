-- ===== src/ScheduledRuns/Invariant.antt =====
-- What holds at every point of the life of a process: the slots, the locks and the active runs.
use mathlib.Core.List.{map-append}
use mathlib.Core.Path.{subst}
use agents_universe.Prelude.{
  ℕ, suc, ◌+◌, ◌-◌, ◌≤◌, ◌≡◌, ◌⊎◌, refl, sym, ap, ◌∙◌, Bool, true, false, List, [], ◌∷◌, ◌++◌,
  length, All-append, arith, Bool-cases, inl, inr,
}
use agents_universe.Prelude.Text.{Text}
use agents_universe.Prelude.TextSet.{same, same_iff, elem, distinct, distinct-append}
use agents_universe.ScheduledRuns.{
  ScheduledRun, is_active, Trigger, Decision, manual, schedule, busy, skip, reserve, decide,
  new_skipped_run, new_pending_run, max_background_runs,
}
use agents_universe.ScheduledRuns.Launches.{
  Phase, locked, looked, skipping, storing, Launch, queued, Work, Service, slots, resume, launch,
  run_ids, lock_ids, IsFresh,
}
use agents_universe.ScheduledRuns.Counts.{
  counts, weight, active_count, active_count-append, AreActive-absent,
}
use agents_universe.ScheduledRuns.Guards.{
  is_clear, Clear, IsGuarded, guarded-middle, guarded-put, guarded-add, IsOwned, IsOwned-put,
  IsOwned-add,
}

-- The launches that hold a slot.
unfoldable pub holds_slot : Phase → ℕ
holds_slot locked = 0
holds_slot (looked active) = 0
holds_slot (skipping error) = 0
holds_slot storing = 1

unfoldable pub holders : List Launch → ℕ
holders [] = 0
holders (l ∷ launches) = holds_slot l.phase + holders launches

pub holders-middle :
    (before after : List Launch) (l : Launch)
    → holders (before ++ l ∷ after) ≡ holds_slot l.phase + holders (before ++ after)
unfolding holders
holders-middle [] after l = refl
holders-middle (b ∷ before) after l = omega (arith, holders-middle before after l)

pub length-middle :
    (before after : List Work) (w : Work)
    → length (before ++ w ∷ after) ≡ suc (length (before ++ after))
length-middle [] after w = refl
length-middle (b ∷ before) after w = omega (arith, length-middle before after w)

pub record Inv (s : Service) : Type 0 where
  pub capped : slots s ≤ max_background_runs
  pub held : s.reserved ≡ holders s.launches
  pub guarded : IsGuarded s.launches s.runs
  pub single : (id : Text) → active_count id s.runs ≤ 1
  pub owned : IsOwned s.work s.runs
  pub rows : distinct (run_ids s.runs) ≡ true

pub Decision-cases :
    (d : Decision) → ((e : Text) × (d ≡ busy e)) ⊎ (((e : Text) × (d ≡ skip e)) ⊎ (d ≡ reserve))
Decision-cases (busy e) = inl (e, refl)
Decision-cases (skip e) = inr (inl (e, refl))
Decision-cases reserve = inr (inr refl)

-- A slot is reserved where no run is active and a slot is free.
pub decide-reserve :
    (t : Trigger) (active : Bool) (n : ℕ)
    → decide t active n ≡ reserve
    → (active ≡ false) × (n + 1 ≤ max_background_runs)
unfolding decide
decide-reserve manual true n e = absurd (ground arith)
decide-reserve schedule true n e = absurd (ground arith)
decide-reserve manual false n e = (refl, ground arith)
decide-reserve schedule false n e = (refl, ground arith)

-- A row with a new id.
pub rows-add :
    (runs : List ScheduledRun) (r : ScheduledRun)
    → elem r.run_id (run_ids runs) ≡ false
    → distinct (run_ids runs) ≡ true
    → distinct (run_ids (runs ++ r ∷ [])) ≡ true
unfolding run_ids
rows-add runs r new u =
    rw (map-append (λ (r : ScheduledRun). r.run_id) runs (r ∷ []))
      (distinct-append (run_ids runs) r.run_id u new)

-- A launch of the service, and what is known of the others.
module _ (s : Service) (v : Inv s) (before after : List Launch) (l : Launch)
    (w : s.launches ≡ before ++ l ∷ after) where
  pub guards :
      IsGuarded (before ++ after) s.runs
      × (elem l.schedule_id (lock_ids (before ++ after)) ≡ false)
      × Clear s.runs l
  guards = guarded-middle before after l s.runs (subst (λ ls. IsGuarded ls s.runs) w v.guarded)

  pub held_by : s.reserved ≡ holds_slot l.phase + holders (before ++ after)
  held_by = v.held ∙ (ap holders w ∙ holders-middle before after l)

  -- It goes on to another phase, which holds no slot or the same.
  pub moved :
      (phase : Phase)
      → holds_slot phase ≡ holds_slot l.phase
      → (is_clear phase ≡ true → active_count l.schedule_id s.runs ≡ 0)
      → Inv (record s { launches = before ++ record l { phase = phase } ∷ after })
  unfolding slots
  moved phase e c = record {
    capped = v.capped;
    held = omega (arith, held_by, holders-middle before after (record l { phase = phase }), e);
    guarded = guarded-put before after (record l { phase = phase }) s.runs guards.0 guards.1 c;
    single = v.single;
    owned = v.owned;
    rows = v.rows;
  }

  -- It ends, and holds no slot.
  pub dropped : holds_slot l.phase ≡ 0 → Inv (record s { launches = before ++ after })
  unfolding slots
  dropped e = record {
    capped = v.capped;
    held = omega (arith, held_by, e);
    guarded = guards.0;
    single = v.single;
    owned = v.owned;
    rows = v.rows;
  }

  pub reserved_by :
      Clear s.runs (record l { phase = storing })
      → slots s + 1 ≤ max_background_runs
      → holds_slot l.phase ≡ 0
      → Inv (record s {
        launches = before ++ record l { phase = storing } ∷ after;
        reserved = suc s.reserved;
      })
  unfolding slots holds_slot
  reserved_by c room e = record {
    capped = omega (arith, room);
    held = omega (arith, held_by, holders-middle before after (record l { phase = storing }), e);
    guarded = guarded-put before after (record l { phase = storing }) s.runs guards.0 guards.1 c;
    single = v.single;
    owned = v.owned;
    rows = v.rows;
  }

  -- It ends, and gives its slot back.
  pub given_back :
      l.phase ≡ storing → Inv (record s { launches = before ++ after; reserved = s.reserved - 1 })
  unfolding slots holds_slot
  given_back e =
      let one : holds_slot l.phase ≡ 1 = ap holds_slot e in
      record {
        capped = omega (arith, v.capped);
        held = omega (arith, held_by, one);
        guarded = guards.0;
        single = v.single;
        owned = v.owned;
        rows = v.rows;
      }

  pub resume-Inv : (active : Bool) → l.phase ≡ looked active → Inv (resume s before l active after)
  unfolding resume decide holds_slot is_clear
  resume-Inv active e = elim (Decision-cases (decide l.trigger active (slots s))) [
    | inl (error, d) ↦ rw (d, resume) (dropped (ap holds_slot e))
    | inr (inl (error, d)) ↦
        rw (d, resume) (moved (skipping error) (sym (ap holds_slot e)) (λ c. absurd (ground arith)))
    | inr (inr d) ↦
        let (quiet, room) = decide-reserve l.trigger active (slots s) d in
        rw (d, resume)
          (reserved_by (λ c. guards.2 (rw (e, is_clear) (ground arith))) room (ap holds_slot e))
  ]

  -- A run is written that is not active.
  pub skip-Inv :
      (error run_id : Text) (now : ℕ)
      → holds_slot l.phase ≡ 0
      → IsFresh s run_id
      → Inv (record s {
        runs = s.runs ++ new_skipped_run run_id l.schedule_id l.trigger error now ∷ [];
        launches = before ++ after;
      })
  unfolding slots new_skipped_run active_count counts weight is_active
  skip-Inv error run_id now e fresh =
      let r = new_skipped_run run_id l.schedule_id l.trigger error now in
      record {
        capped = v.capped;
        held = omega (arith, held_by, e);
        guarded = guarded-add (before ++ after) s.runs r guards.1 guards.0;
        single = λ id. omega (arith, active_count-append id s.runs (r ∷ []), v.single id);
        owned = IsOwned-add s.work s.runs r fresh.no_work v.owned;
        rows = rows-add s.runs r fresh.no_row v.rows;
      }

  pub launch-Inv :
      (run_id : Text) (now : ℕ)
      → l.phase ≡ storing
      → IsFresh s run_id
      → Inv (launch s before l run_id now after)
  unfolding launch slots new_pending_run holds_slot is_clear active_count counts weight is_active
  launch-Inv run_id now e fresh =
      let r = new_pending_run run_id l.schedule_id l.trigger now in
      let one : holds_slot l.phase ≡ 1 = ap holds_slot e in
      let quiet : active_count l.schedule_id s.runs ≡ 0 = guards.2 (ap is_clear e) in
      record {
        capped = omega (arith, v.capped, held_by, one);
        held = omega (arith, held_by, one);
        guarded = guarded-add (before ++ after) s.runs r guards.1 guards.0;
        single = λ id. elim (Bool-cases (same l.schedule_id id)) [
          | inl mine ↦
              let none_else : active_count id s.runs ≡ 0 =
                rw (← (same_iff l.schedule_id id).0 mine) quiet in
              ground (arith, active_count-append id s.runs (r ∷ []), none_else)
          | inr other ↦ ground (arith, active_count-append id s.runs (r ∷ []), v.single id)
        ];
        owned =
            IsOwned-put [] s.work (record { run_id = run_id; stage = queued }) (s.runs ++ r ∷ [])
              (IsOwned-add s.work s.runs r fresh.no_work v.owned) fresh.no_work
              (λ e.
                All-append _ s.runs (r ∷ []) (AreActive-absent run_id s.runs fresh.no_row)
                  ((λ e. refl), tt));
        rows = rows-add s.runs r fresh.no_row v.rows;
      }
