-- ===== src/Runs/Writes.antt =====
-- The life of a run: a row that has ended stays as it is, but for its snapshot.
use agents_universe.Prelude.{
  ℕ, ◌+◌, ◌≡◌, refl, ap, Bool, true, false, String, Option, none, some, List, [], ◌∷◌, ◌++◌, ltb,
  arith, eq_iff, if◌then◌else◌,
}
use text.Mathlib.Text.{◌==◌}
use agents_universe.Prelude.Text.{Text}
use agents_universe.Runs.{
  Run, is_running, create_run, update_where, is_live, update_run_snapshot, Finish, finished,
  finish_run, stale, interrupt_stale_runs,
}
use agents_universe.Runs.Recovery.{clear_snapshot, elem, clear_all}

-- The row with this run id.
unfoldable pub find_run : List Run → String → Option Run
find_run [] run_id = none
find_run (r ∷ rows) run_id = if r.run_id == run_id then some r else find_run rows run_id

-- A write of the service: those of a run's life, and the recovery's, which take a snapshot away.
pub data Write : Type 0 where
  created : String → String → Option String → Write
  snapshot : String → Text → Write
  finishing : String → Finish → ℕ → Write
  sweep : ℕ → Write
  clearing : String → Write
  clearing_all : List String → Write

unfoldable pub write : List Run → Write → List Run
write rows (created run_id conversation_id user_message_id) =
    create_run rows run_id conversation_id user_message_id
write rows (snapshot run_id text) = update_run_snapshot rows run_id text
write rows (finishing run_id a now) = (finish_run rows run_id a now).0
write rows (sweep now) = (interrupt_stale_runs rows now).0
write rows (clearing run_id) = clear_snapshot run_id rows
write rows (clearing_all run_ids) = clear_all run_ids rows

unfoldable pub write_all : List Run → List Write → List Run
write_all rows [] = rows
write_all rows (w ∷ ws) = write_all (write rows w) ws

-- The recovery takes the snapshot of this run away.
unfoldable pub clears : String → Write → Bool
clears run_id (clearing other) = run_id == other
clears run_id (clearing_all run_ids) = elem run_id run_ids
clears run_id w = false

unfoldable pub cleared : Run → Bool → Run
cleared r false = r
cleared r true = record r { streaming_snapshot = none }

-- The row of an ended run behind the writes: only a clearing changes it, and only its snapshot.
unfoldable pub left_by : String → List Write → Run → Run
left_by run_id [] r = r
left_by run_id (w ∷ ws) r = left_by run_id ws (cleared r (clears run_id w))

-- An update keeps the row that its `where` does not reach, if it changes no run id.
find-update :
    (p : Run → Bool) (f : Run → Run) (rows : List Run) (run_id : String) (r : Run)
    → ((q : Run) → (f q).run_id ≡ q.run_id)
    → p r ≡ false
    → find_run rows run_id ≡ some r
    → find_run (update_where p f rows).0 run_id ≡ some r
unfolding find_run update_where
find-update p f [] run_id r keeps miss h = h
find-update p f (q ∷ rows) run_id r keeps miss h =
    ground (arith, keeps q, find-update p f rows run_id r keeps miss)

-- And changes the row that it reaches.
find-update_hit :
    (p : Run → Bool) (f : Run → Run) (rows : List Run) (run_id : String) (r : Run)
    → ((q : Run) → (f q).run_id ≡ q.run_id)
    → p r ≡ true
    → find_run rows run_id ≡ some r
    → find_run (update_where p f rows).0 run_id ≡ some (f r)
unfolding find_run update_where
find-update_hit p f [] run_id r keeps hit h = cc
find-update_hit p f (q ∷ rows) run_id r keeps hit h =
    ground (arith, keeps q, find-update_hit p f rows run_id r keeps hit)

find-run_id :
    (rows : List Run) (run_id : String) (r : Run)
    → find_run rows run_id ≡ some r
    → r.run_id ≡ run_id
unfolding find_run
find-run_id [] run_id r h = cc
find-run_id (q ∷ rows) run_id r h =
    ground (arith, eq_iff q.run_id run_id, find-run_id rows run_id r)

-- A clearing by any test of the run's id.
find-clear :
    (p : Run → Bool) (b : Bool) (rows : List Run) (run_id : String) (r : Run)
    → p r ≡ b
    → find_run rows run_id ≡ some r
    → find_run (update_where p (λ q. record q { streaming_snapshot = none }) rows).0 run_id
      ≡ some (cleared r b)
unfolding cleared
find-clear p false rows run_id r e h =
    find-update p (λ q. record q { streaming_snapshot = none }) rows run_id r (λ q. refl) e h
find-clear p true rows run_id r e h =
    find-update_hit p (λ q. record q { streaming_snapshot = none }) rows run_id r (λ q. refl) e h

live_ended : (run_id : String) (r : Run) → is_running r.status ≡ false → is_live run_id r ≡ false
unfolding is_live
live_ended run_id r ended = ground arith

find-append :
    (rows more : List Run) (run_id : String) (r : Run)
    → find_run rows run_id ≡ some r
    → find_run (rows ++ more) run_id ≡ some r
unfolding find_run
find-append [] more run_id r h = cc
find-append (q ∷ rows) more run_id r h = ground (arith, find-append rows more run_id r)

find-write :
    (rows : List Run) (w : Write) (run_id : String) (r : Run)
    → is_running r.status ≡ false
    → find_run rows run_id ≡ some r
    → find_run (write rows w) run_id ≡ some (cleared r (clears run_id w))
unfolding write create_run update_run_snapshot finish_run interrupt_stale_runs finished stale clears
    cleared clear_snapshot clear_all
find-write rows (created fresh_id conversation_id user_message_id) run_id r ended h =
    find-append rows _ run_id r h
find-write rows (snapshot other text) run_id r ended h =
    find-update (is_live other) _ rows run_id r (λ q. refl) (live_ended other r ended) h
find-write rows (finishing other a now) run_id r ended h =
    find-update (is_live other) _ rows run_id r (λ q. refl) (live_ended other r ended) h
find-write rows (sweep now) run_id r ended h =
    find-update (λ q. is_running q.status) _ rows run_id r (λ q. refl) ended h
find-write rows (clearing other) run_id r ended h =
    find-clear (λ q. q.run_id == other) _ rows run_id r
      (ap (λ x. x == other) (find-run_id rows run_id r h)) h
find-write rows (clearing_all run_ids) run_id r ended h =
    find-clear (λ q. elem q.run_id run_ids) _ rows run_id r
      (ap (λ x. elem x run_ids) (find-run_id rows run_id r h)) h

cleared-status : (r : Run) (b : Bool) → (cleared r b).status ≡ r.status
unfolding cleared
cleared-status r false = refl
cleared-status r true = refl

-- A run that has ended keeps its row, whatever is written later, in whatever order: creations,
-- snapshots, terminal writes and sweeps leave it as it is, and the recovery's clearings change nothing
-- but its snapshot, which they take away where they name the run.
pub find-write_all :
    (rows : List Run) (ws : List Write) (run_id : String) (r : Run)
    → find_run rows run_id ≡ some r
    → is_running r.status ≡ false
    → find_run (write_all rows ws) run_id ≡ some (left_by run_id ws r)
unfolding write_all left_by
find-write_all rows [] run_id r h ended = h
find-write_all rows (w ∷ ws) run_id r h ended =
    find-write_all (write rows w) ws run_id (cleared r (clears run_id w))
      (find-write rows w run_id r ended h) (rw (cleared-status r (clears run_id w)) ended)

-- The number of rows that a test selects.
unfoldable pub count : (Run → Bool) → List Run → ℕ
count p [] = 0
count p (r ∷ rows) = (if p r then 1 else 0) + count p rows

count-update :
    (p q : Run → Bool) (f : Run → Run) (rows : List Run)
    → ((r : Run) → q r ≡ true → p r ≡ true)
    → ((r : Run) → q (f r) ≡ false)
    → count q (update_where p f rows).0 ≡ 0
unfolding count update_where
count-update p q f [] reach done = refl
count-update p q f (r ∷ rows) reach done =
    ground (arith, reach r, done r, count-update p q f rows reach done)

rowcount :
    (p : Run → Bool) (f : Run → Run) (rows : List Run) → (update_where p f rows).1 ≡ count p rows
unfolding count update_where
rowcount p f [] = refl
rowcount p f (r ∷ rows) = ground (arith, rowcount p f rows)

live_finished :
    (run_id : String) (a : Finish) (now : ℕ)
    → is_running a.status ≡ false
    → (r : Run) → is_live run_id (finished a now r) ≡ false
unfolding is_live finished
live_finished run_id a now terminal r = ground arith

update_none :
    (p : Run → Bool) (f : Run → Run) (rows : List Run)
    → count p rows ≡ 0
    → update_where p f rows ≡ (rows, 0)
unfolding count update_where
update_none p f [] h = refl
update_none p f (r ∷ rows) h = ground (arith, update_none p f rows)

-- The first terminal write of a run wins: it reports the transition exactly if the run was live,
-- and any terminal write behind it reports none and leaves the table as it is.
finish_once :
    (rows : List Run) (run_id : String) (a b : Finish) (now later : ℕ)
    → is_running a.status ≡ false
    → let after = (finish_run rows run_id a now).0 in
      ((finish_run rows run_id a now).1 ≡ ltb 0 (count (is_live run_id) rows))
      × (finish_run after run_id b later ≡ (after, false))
unfolding finish_run
finish_once rows run_id a b now later terminal =
    let p = is_live run_id in
    let none_left =
      count-update p p (finished a now) rows (λ r h. h) (live_finished run_id a now terminal) in
    (
      ap (ltb 0) (rowcount p (finished a now) rows),
      ap (λ done. (done.0, ltb 0 done.1))
          (update_none p (finished b later) (update_where p (finished a now) rows).0 none_left),
    )

-- The startup sweep leaves no run running, and counts those it ends.
pub interrupt_stale_lem :
    (rows : List Run) (now : ℕ)
    → ((interrupt_stale_runs rows now).1 ≡ count (λ r. is_running r.status) rows)
      × (count (λ r. is_running r.status) (interrupt_stale_runs rows now).0 ≡ 0)
unfolding interrupt_stale_runs stale is_running
interrupt_stale_lem rows now = (rowcount _ _ rows, count-update _ _ _ rows (λ r h. h) (λ r. refl))
