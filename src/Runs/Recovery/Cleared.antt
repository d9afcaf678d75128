-- ===== src/Runs/Recovery/Cleared.antt =====
-- After a recovery whose commits succeed, no snapshot is left to recover.
use agents_universe.Prelude.{
  ◌≡◌, refl, ◌∙◌, Bool, true, false, ◌&&◌, not, String, none, List, [], ◌∷◌, map, keep, keep-yes,
  keep-no, arith, Bool-cases, inl, inr, eq_iff,
}
use text.Mathlib.Text.{◌==◌}
use agents_universe.Prelude.Dict.{Dict}
use agents_universe.Runs.{Run, update_where}
use agents_universe.Runs.Recovery.{
  Database, Pending, elem, clear_snapshot, clear_all, has_text, recover, recover_all, pending_ids,
  clear_older, latest_per_conv, is_recoverable, materialize_interrupted_snapshots,
}

-- The runs that can be recovered have ids that pass the test.
unfoldable pub Left : (String → Bool) → List Run → Type 0
Left p [] = Unit
Left p (r ∷ rows) = (is_recoverable r ≡ true → p r.run_id ≡ true) × Left p rows

Left-weaken :
    (p q : String → Bool) (rows : List Run)
    → ((x : String) → p x ≡ true → q x ≡ true)
    → Left p rows
    → Left q rows
unfolding Left
Left-weaken p q [] f h = tt
Left-weaken p q (r ∷ rows) f h = ((λ e. f r.run_id (h.0 e)), Left-weaken p q rows f h.1)

cleared_row : (r : Run) → is_recoverable (record r { streaming_snapshot = none }) ≡ false
unfolding is_recoverable has_text
cleared_row r = ground arith

Left-update :
    (p hit : String → Bool) (rows : List Run)
    → Left p rows
    → Left
        (λ x. p x && not (hit x))
        (update_where (λ r. hit r.run_id) (λ r. record r { streaming_snapshot = none }) rows).0
unfolding Left update_where
Left-update p hit [] h = tt
Left-update p hit (r ∷ rows) h = elim (Bool-cases (hit r.run_id)) [
  | inl yes_hit ↦
      rw yes_hit ((λ e. absurd (ground (arith, cleared_row r))), Left-update p hit rows h.1)
  | inr missed ↦ rw missed ((λ e. ground (arith, h.0 e)), Left-update p hit rows h.1)
]

cleared-Left :
    (q : String → Bool) (rows : List Run) (run_id : String)
    → Left q rows
    → Left (λ x. q x && not (x == run_id)) (clear_snapshot run_id rows)
unfolding clear_snapshot
cleared-Left q rows run_id h = Left-update q (λ x. x == run_id) rows h

Left-none :
    (p : String → Bool) (rows : List Run)
    → ((x : String) → p x ≡ false)
    → Left p rows
    → keep is_recoverable rows ≡ []
unfolding Left
Left-none p [] never h = refl
Left-none p (r ∷ rows) never h = elim (Bool-cases (is_recoverable r)) [
  | inl live ↦ absurd (ground (arith, h.0 live, never r.run_id))
  | inr dead ↦ keep-no is_recoverable r rows dead ∙ Left-none p rows never h.1
]

abbrev ids : List Run → List String
ids = map (λ r. r.run_id)

elem_head : (x : String) (xs : List String) → elem x (x ∷ xs) ≡ true
unfolding elem
elem_head x xs = ground (arith, eq_iff x x)

elem_tail : (x y : String) (xs : List String) → elem x xs ≡ true → elem x (y ∷ xs) ≡ true
unfolding elem
elem_tail x y xs h = ground (arith, eq_iff y x)

Left-start :
    (rows : List Run) (q : String → Bool)
    → ((x : String) → elem x (ids (keep is_recoverable rows)) ≡ true → q x ≡ true)
    → Left q rows
unfolding Left
Left-start [] q f = tt
Left-start (r ∷ rows) q f = elim (Bool-cases (is_recoverable r)) [
  | inl live ↦
      let e = keep-yes is_recoverable r rows live in
      (
        (λ h. f r.run_id (rw e (elem_head r.run_id (ids (keep is_recoverable rows))))),
        Left-start rows q
            (λ x h. f x (rw e (elem_tail x r.run_id (ids (keep is_recoverable rows)) h))),
      )
  | inr dead ↦
      let e = keep-no is_recoverable r rows dead in
      ((λ live. absurd (ground (arith, live, dead))), Left-start rows q (λ x h. f x (rw e h)))
]

elem-keep :
    (f : String → Bool) (xs : List String) (x : String) → elem x (keep f xs) ≡ (elem x xs && f x)
unfolding elem
elem-keep f [] x = ground arith
elem-keep f (y ∷ ys) x = elim (Bool-cases (f y)) [
  | inl kept ↦ rw (keep-yes f y ys kept) (ground (arith, eq_iff y x, elem-keep f ys x, kept))
  | inr dropped ↦
      rw (keep-no f y ys dropped) (ground (arith, eq_iff y x, elem-keep f ys x, dropped))
]

module _ (order_by : List Run → List Run) (flagged : String → Bool)
    (interrupted_refs : String) where
  module _ (uuid : String → String) (commits : String → Bool) where
    recover-runs :
        (db : Database) (conversation_id : String) (p : Pending)
        → commits p.run_id ≡ true
        → (recover order_by flagged interrupted_refs uuid commits true db
            (conversation_id, p)).0.runs
          ≡ clear_snapshot p.run_id db.runs
    unfolding recover
    recover-runs db conversation_id p c = ground arith

    abbrev pending_of : Dict Pending → List String
    pending_of = pending_ids order_by flagged interrupted_refs uuid commits true

    recover_all-Left :
        (q : String → Bool) (db : Database) (entries : Dict Pending)
        → ((x : String) → commits x ≡ true)
        → Left q db.runs
        → Left
            (λ x. q x && not (elem x (pending_of entries)))
            (recover_all order_by flagged interrupted_refs uuid commits true db entries).0.runs
    unfolding recover_all pending_ids elem
    recover_all-Left q db [] c h = Left-weaken q _ db.runs (λ x e. ground arith) h
    recover_all-Left q db ((conversation_id, p) ∷ entries) c h =
        let db' =
          (recover order_by flagged interrupted_refs uuid commits true db (conversation_id, p)).0 in
        let q' = λ (x : String). q x && not (x == p.run_id) in
        Left-weaken _ _ _ (λ x e. ground (arith, eq_iff x p.run_id, eq_iff p.run_id x))
          (recover_all-Left q' db' entries c (
            rw (recover-runs db conversation_id p (c p.run_id))
              (cleared-Left q db.runs p.run_id h)))

    -- If every commit succeeds, no interrupted run has a snapshot left after the recovery, so that
    -- the next sweep finds none. The database's sorting keeps all rows.
    pub materialize_clears :
        (db : Database)
        → ((x : String) → commits x ≡ true)
        → ((rows : List Run) (x : String)
            → elem x (ids rows) ≡ true
            → elem x (ids (order_by rows)) ≡ true)
        → keep is_recoverable
            (materialize_interrupted_snapshots order_by flagged interrupted_refs uuid commits true
              db).0.runs
          ≡ []
    unfolding materialize_interrupted_snapshots clear_older clear_all
    materialize_clears db c complete =
        let rows = order_by (keep is_recoverable db.runs) in
        let latest = latest_per_conv rows [] in
        let older = keep (λ x. not (elem x (pending_of latest))) (ids rows) in
        Left-none _ _
          (λ x. ground (arith, elem-keep (λ x. not (elem x (pending_of latest))) (ids rows) x))
          (Left-update _ (λ x. elem x older) _
            (recover_all-Left (λ x. elem x (ids rows)) db latest c
              (Left-start db.runs _ (λ x. complete (keep is_recoverable db.runs) x))))
