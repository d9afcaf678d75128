-- ===== src/Tasks/Schedule/Settled.antt =====
-- What is left when no task is in flight: nothing, unless the user stepped in.
use agents_universe.Prelude.{
  ℕ, ◌≡◌, refl, sym, ap, ◌∙◌, Bool, true, false, ◌&&◌, ◌||◌, not, List, [], ◌∷◌, arith, Bool-cases,
  inl, inr,
}
use agents_universe.Prelude.Text.{Text}
use agents_universe.Prelude.TextSet.{
  same, same_iff, elem, subset, discard, distinct, elem-discard, elem-append, subset-elem,
  not-subset, elem-keep,
}
use agents_universe.Tasks.{Task, Dependencies, ids}
use agents_universe.Tasks.Kahn.{IsGraph, Order, start, visit}
use agents_universe.Tasks.Graph.{IsOrdered}
use agents_universe.Tasks.Fallback.{plan_graph, plan_graph-tasks, plan_graph-IsOrdered}
use agents_universe.Tasks.Schedule.{
  Status, failed, skipped, Run, new_run, offer, dispatch_ready, skip, fail, complete, begin, refuse,
  Step, begins, refuses, completes, fails, stops, looks, dispatches, aborts, injects, Reach, here,
  next, End, interrupted, ended, is_open, skip_one, skip_rest, conclude,
}
use agents_universe.Tasks.Schedule.Safety.{Inv, Inv-new, Inv-Step}

-- The task has completed, or it has failed or was skipped.
abbrev pub settles : Run → Text → Bool
settles s t = elem t s.completed || elem t s.failed

-- No coroutine is left in `pending_futures`, and the first `_dispatch_ready` has run: none waits for the
-- semaphore, runs its task, skips dependents or has `_dispatch_ready` still to call.
pub record IsIdle (s : Run) : Type 0 where
  pub none_waits : s.waiting ≡ []
  pub none_runs : s.running ≡ []
  pub none_to_skip : s.skipping ≡ []
  pub none_dispatches : s.dispatching ≡ 0

module _ (g : Dependencies) where
  -- What `_dispatch_ready` leaves alone.
  record Kept (s t : Run) : Type 0 where
    completes : t.completed ≡ s.completed
    fails : t.failed ≡ s.failed
    skips : t.skipping ≡ s.skipping
    abort : t.aborted ≡ s.aborted
    input : t.has_input ≡ s.has_input
    grows : (x : Text) → elem x s.dispatched ≡ true → elem x t.dispatched ≡ true

  offer-Kept : (x : Text) (s : Run) → Kept s (offer g x s)
  unfolding offer elem
  offer-Kept x s = record {
    completes = ground arith;
    fails = ground arith;
    skips = ground arith;
    abort = ground arith;
    input = ground arith;
    grows = λ y m. ground arith;
  }

  Kept-trans : (s t u : Run) → Kept s t → Kept t u → Kept s u
  Kept-trans s t u a b = record {
    completes = b.completes ∙ a.completes;
    fails = b.fails ∙ a.fails;
    skips = b.skips ∙ a.skips;
    abort = b.abort ∙ a.abort;
    input = b.input ∙ a.input;
    grows = λ x m. b.grows x (a.grows x m);
  }

  Kept-self : (s : Run) → Kept s s
  Kept-self s = record {
    completes = refl;
    fails = refl;
    skips = refl;
    abort = refl;
    input = refl;
    grows = λ x m. m;
  }

  dispatch-Kept : (ts : List Text) (s : Run) → Kept s (dispatch_ready g ts s)
  unfolding dispatch_ready
  dispatch-Kept [] s = Kept-self s
  dispatch-Kept (t ∷ ts) s =
      elim (Bool-cases (not (elem t s.dispatched) && (s.aborted || s.has_input))) [
        | inl stop ↦ simp stop (Kept-self s)
        | inr go ↦
            simp go (Kept-trans s (offer g t s) _ (offer-Kept t s) (dispatch-Kept ts (offer g t s)))
      ]

  offer_lem :
      (t : Text) (s : Run)
      → elem t (offer g t s).dispatched ≡ false
      → subset (g.deps t) s.completed ≡ false
  unfolding offer elem
  offer_lem t s h = ground (arith, same_iff t t)

  -- Behind the loop a task that is not dispatched has a dependency that has not completed.
  dispatch_all :
      (ts : List Text) (s : Run) (t : Text)
      → s.aborted ≡ false
      → s.has_input ≡ false
      → elem t ts ≡ true
      → elem t (dispatch_ready g ts s).dispatched ≡ false
      → subset (g.deps t) s.completed ≡ false
  unfolding dispatch_ready elem
  dispatch_all [] s t a i m h = cc
  dispatch_all (x ∷ ts) s t a i m h =
      let k = offer-Kept x s in
      let rest = dispatch-Kept ts (offer g x s) in
      ground (
        arith,
        same_iff x t,
        offer_lem t s,
        rest.grows t,
        k.completes,
        k.abort,
        k.input,
        dispatch_all ts (offer g x s) t,
      )

  record Live (s : Run) : Type 0 where
    -- the dependents of a failed task are dispatched, or a cascade has still to look at them
    cascades :
        (f d : Text)
        → s.aborted ≡ false
        → elem f s.failed ≡ true
        → elem d (g.dependents f) ≡ true
        → (elem d s.dispatched || elem d s.skipping) ≡ true
    -- behind the last `_dispatch_ready` every other task waits for a dependency
    blocked :
        (t : Text)
        → s.dispatching ≡ 0
        → s.aborted ≡ false
        → s.has_input ≡ false
        → elem t g.tasks ≡ true
        → elem t s.dispatched ≡ false
        → subset (g.deps t) s.completed ≡ false

  Live-new : (ts : List Task) → Live (new_run ts)
  unfolding new_run elem
  Live-new ts = record { cascades = λ f d a m e. cc; blocked = λ t u a i m e. cc }

  Live-dispatch :
      (s : Run) (n : ℕ) → Live s → Live (record (dispatch_ready g g.tasks s) { dispatching = n })
  Live-dispatch s n v =
      let k = dispatch-Kept g.tasks s in
      record {
        cascades = λ f d a m e.
            ground
              (arith, v.cascades f d (sym k.abort ∙ a) (rw k.fails at m) e, k.skips, k.grows d);
        blocked = λ t u a i m e.
            rw k.completes (dispatch_all g.tasks s t (sym k.abort ∙ a) (sym k.input ∙ i) m e);
      }

  Live-fail : (t : Text) (status : Status) (s : Run) → Live s → Live (fail g t status s)
  unfolding fail elem
  Live-fail t status s v = record {
    cascades = λ f d a m e.
        ground (arith, same_iff t f, elem-append d (g.dependents t) s.skipping, v.cascades f d);
    blocked = λ x u a i m e. cc;
  }

  Live-skip :
      (x : Text) (s : Run)
      → Inv g s
      → Live s
      → Live (skip g x (record s { skipping = discard x s.skipping }))
  unfolding skip elem
  Live-skip x s i v = record {
    cascades = λ f d a m e. ground (
      arith,
      same_iff x f,
      same_iff x d,
      elem-append d (g.dependents x) (discard x s.skipping),
      elem-discard x d s.skipping,
      v.cascades f d,
      i.places x,
    );
    blocked = λ t u a n m e. ground (arith, v.blocked t);
  }

  Live-complete : (t : Text) (s : Run) → Live s → Live (complete t s)
  unfolding complete
  Live-complete t s v = record { cascades = v.cascades; blocked = λ x u a i m e. cc }

  Live-Step : {s t : Run} → Step g s t → Inv g s → Live s → Live t
  unfolding begin refuse
  Live-Step (begins s t m room a) i v = record { cascades = v.cascades; blocked = v.blocked }
  Live-Step (refuses s t m a) i v = record {
    cascades = λ f d b n e. cc;
    blocked = λ x u b n k e. cc;
  }
  Live-Step (completes s t m a) i v = Live-complete t s v
  Live-Step (fails s t m) i v = Live-fail t failed s v
  Live-Step (stops s t m a) i v = Live-fail t skipped s v
  Live-Step (looks s d m) i v = Live-skip d s i v
  Live-Step (dispatches s n e) i v = Live-dispatch s n v
  Live-Step (aborts s) i v = record { cascades = λ f d a m e. cc; blocked = λ t u a n m e. cc }
  Live-Step (injects s) i v = record { cascades = v.cascades; blocked = λ t u a n m e. cc }

  Live-Reach : {s t : Run} → Inv g s → Live s → Reach g s t → Inv g t × Live t
  Live-Reach i v here = (i, v)
  Live-Reach i v (next r st) = let (j, u) = Live-Reach i v r in (Inv-Step g st j, Live-Step st j u)

  all_settle :
      (w : IsGraph g) (s : Run)
      → Inv g s
      → Live s
      → IsIdle s
      → s.aborted ≡ false
      → s.has_input ≡ false
      → {all : List Text} (t : Text) → Order g all
      → elem t all ≡ true
      → elem t g.tasks ≡ true
      → settles s t ≡ true
  unfolding elem
  all_settle w s i v idle a n t start m k = cc
  all_settle w s i v idle a n t (visit {visited} x ready o) m k = elim (Bool-cases (same x t)) [
    | inr ne ↦ all_settle w s i v idle a n t o (ground arith) k
    | inl e ↦ elim (Bool-cases (elem t s.dispatched)) [
      | inl d ↦ ground (arith, i.places t, ap (elem t) idle.none_waits, ap (elem t) idle.none_runs)
      | inr undispatched ↦
          let stuck = v.blocked t idle.none_dispatches a n k undispatched in
          let (d, of_t, open_d) = not-subset (g.deps t) s.completed stuck in
          let behind = subset-elem (g.deps x) visited d ready (rw ((same_iff x t).0 e) of_t) in
          let known = w.closed t d of_t in
          let settled_d = all_settle w s i v idle a n d o behind known in
          ground (arith, v.cascades d t, w.inverse d t, ap (elem t) idle.none_to_skip)
    ]
  ]

skip_one_lem :
    (x : Text) (s : Run) (t : Text) → settles (skip_one x s) t ≡ (settles s t || same x t)
unfolding skip_one is_open elem
skip_one_lem x s t = ground (arith, same_iff x t)

skip_rest_lem :
    (ts : List Text) (s : Run) (t : Text) → settles (skip_rest ts s) t ≡ (settles s t || elem t ts)
unfolding skip_rest elem
skip_rest_lem [] s t = ground arith
skip_rest_lem (x ∷ ts) s t = ground (arith, skip_rest_lem ts (skip_one x s) t, skip_one_lem x s t)

skip_one_apart :
    (x : Text) (s : Run) (t : Text)
    → (elem t s.completed && elem t s.failed) ≡ false
    → (elem t (skip_one x s).completed && elem t (skip_one x s).failed) ≡ false
unfolding skip_one is_open elem
skip_one_apart x s t h = ground (arith, same_iff x t)

skip_rest_apart :
    (ts : List Text) (s : Run) (t : Text)
    → (elem t s.completed && elem t s.failed) ≡ false
    → (elem t (skip_rest ts s).completed && elem t (skip_rest ts s).failed) ≡ false
unfolding skip_rest
skip_rest_apart [] s t h = h
skip_rest_apart (x ∷ ts) s t h = skip_rest_apart ts (skip_one x s) t (skip_one_apart x s t h)

-- Each task has completed, or it has failed or was skipped, and not both; or the user stepped in,
-- and the tasks handed back are those of which neither is so.
pub Accounted : List Text → End → Type 0
Accounted tasks (interrupted rest s) =
    (t : Text) → elem t rest ≡ (elem t tasks && not (settles s t))
Accounted tasks (ended s) =
    (t : Text)
    → elem t tasks ≡ true
    → (settles s t ≡ true) × ((elem t s.completed && elem t s.failed) ≡ false)

conclude-Accounted :
    (g : Dependencies) (o : IsOrdered g) (s : Run)
    → Inv g s
    → Live g s
    → IsIdle s
    → Accounted g.tasks (conclude g s)
unfolding conclude Accounted is_open
conclude-Accounted g o s i v idle = elim (Bool-cases s.has_input) [
  | inl stepped_in ↦ simp stepped_in (λ t. ground (arith, elem-keep (is_open s) g.tasks t))
  | inr none_came ↦ elim (Bool-cases s.aborted) [
    | inl a ↦
        simp (none_came, a)
          (λ t k. (
            ground (arith, skip_rest_lem g.tasks s t),
            skip_rest_apart g.tasks s t (ground (arith, i.apart t)),
          ))
    | inr live ↦
        simp (none_came, live)
          (λ t k. (
            all_settle g o.graph s i v idle live none_came t o.order
                (subset-elem g.tasks o.all t o.covers k) k,
            ground (arith, i.apart t),
          ))
  ]
]

-- For a plan of tasks with different ids, whatever tasks fail: when the first `_dispatch_ready` has run
-- and no coroutine of a task is left, each task has either completed, or it has failed or was skipped,
-- and not both; or the user has stepped in, and exactly the tasks of which neither is so are handed
-- back.
pub run_ends :
    (ts : List Task) (s : Run)
    → distinct (ids ts) ≡ true
    → Reach (plan_graph ts) (new_run ts) s
    → IsIdle s
    → Accounted (ids ts) (conclude (plan_graph ts) s)
run_ends ts s u r idle =
    let g = plan_graph ts in
    let (i, v) = Live-Reach g (Inv-new g ts) (Live-new g ts) r in
    rw (← plan_graph-tasks ts) (conclude-Accounted g (plan_graph-IsOrdered ts u) s i v idle)
