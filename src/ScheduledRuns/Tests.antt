-- ===== src/ScheduledRuns/Tests.antt =====
-- Scheduled runs on small inputs.
use agents_universe.Prelude.{
  ℕ, ◌≤◌, ◌≡◌, ◌⊎◌, ◌↔◌, refl, true, false, Option, none, some, List, [], ◌∷◌,
}
use agents_universe.Prelude.Text.{Text, codes}
use agents_universe.Prelude.TextSet.{same, elem, distinct}
use agents_universe.ScheduledRuns.{
  ScheduledRun, Task, running, failed, is_active, manual, schedule, has_active, find_run, find_task,
  settle_runs, decide, completes,
}
use agents_universe.ScheduledRuns.Launches.{
  delete_task, Launch, locked, looked, storing, Service, slots, run_ids, lock_ids, work_ids, locks,
  looks, resumes, stores, Reach, here, next, resume, launch,
}
use agents_universe.ScheduledRuns.Counts.{active_count}
use agents_universe.ScheduledRuns.Slots.{new_service, Reach-single}
use agents_universe.ScheduledRuns.Kept.{Reach-keeps}
use agents_universe.ScheduledRuns.Replies.{
  EndFrame, Frame, stream_end, other, new_transport, receive_all, no_reason, MessageRow, not_dict,
  agent_outcome,
}
use agents_universe.ScheduledRuns.Replies.Recorded.{
  first_real, first_end, last_error, or_else, receive_all_lem,
}
use agents_universe.ScheduledRuns.Replies.Scored.{IsReplied, completes_iff}

abbrev nightly : Task
nightly = record { schedule_id = codes "s1"; notify = true; last_run_at = none; last_status = none }

-- A run that the process before left running.
abbrev stale : ScheduledRun
stale = record {
  run_id = codes "r0";
  schedule_id = codes "s1";
  trigger = schedule;
  status = running;
  script_run_id = none;
  summary = none;
  error = none;
  started_at = 5;
  completed_at = none;
}

abbrev booted : Service
booted = new_service (nightly ∷ []) (stale ∷ []) 9

abbrev waiting : Launch
waiting = record { schedule_id = codes "s1"; trigger = manual; phase = locked }

abbrev asked : Launch
asked = record { schedule_id = codes "s1"; trigger = manual; phase = looked false }

abbrev booked : Launch
booked = record { schedule_id = codes "s1"; trigger = manual; phase = storing }

abbrev with : Launch → ℕ → Service
with l n = record booted { launches = l ∷ []; reserved = n }

launched : Reach booted (launch (with booked 1) [] booked (codes "r1") 10 [])
unfolding new_service settle_runs lock_ids elem same find_task has_active resume decide slots
    run_ids work_ids is_active
launched =
    next
      (next
        (next (next here (locks booted (codes "s1") manual nightly refl refl))
          (looks (with waiting 0) [] [] waiting refl refl))
        (resumes (with asked 0) [] [] asked false refl refl))
      (stores (with booked 1) [] [] booked (codes "r1") 10 refl refl
        (record { no_row = refl; no_work = refl }))

Reach-single_example :
    (active_count (codes "s1") (launch (with booked 1) [] booked (codes "r1") 10 []).runs ≤ 1)
    × (slots (launch (with booked 1) [] booked (codes "r1") 10 []) ≤ 64)
unfolding distinct elem run_ids
Reach-single_example =
    Reach-single (nightly ∷ []) (stale ∷ []) 9 (launch (with booked 1) [] booked (codes "r1") 10 [])
      (codes "s1") refl launched

abbrev settled : ScheduledRun
settled = record stale {
  status = failed;
  error = some (codes "Interrupted by server restart");
  completed_at = some 9;
}

Reach-keeps_example :
    (find_run (codes "r0") (with waiting 0).runs ≡ some settled)
    ⊎ (with waiting 0 ≡ delete_task booted settled.schedule_id)
unfolding distinct elem run_ids new_service settle_runs lock_ids find_task same find_run is_active
Reach-keeps_example =
    Reach-keeps (nightly ∷ []) (stale ∷ []) 9 booted (with waiting 0) (codes "r0") settled refl here
      (locks booted (codes "s1") manual nightly refl refl) refl refl

abbrev step_boundary : EndFrame
step_boundary = record { message_id = some (codes "m1"); injection = true; stop_reason = no_reason }

abbrev reply : EndFrame
reply = record { message_id = some (codes "m2"); injection = false; stop_reason = no_reason }

abbrev frames : List Frame
frames = stream_end step_boundary ∷ other ∷ stream_end reply ∷ []

receive_all_lem_example :
    ((receive_all new_transport frames).stream_end ≡ or_else (first_real frames) (first_end frames))
    × ((receive_all new_transport frames).error ≡ last_error none frames)
receive_all_lem_example = receive_all_lem frames

abbrev messages : Text → Option MessageRow
messages id = some (record { content = some (codes "done"); knowledge_refs = none })

completes_iff_example :
    ((agent_outcome messages (λ t. not_dict) (receive_all new_transport frames)).status ≡ completes)
    ↔ IsReplied messages (λ t. not_dict) (receive_all new_transport frames)
completes_iff_example = completes_iff messages (λ t. not_dict) (receive_all new_transport frames)
