-- ===== src/Tasks/Schedule/Safety.antt =====
-- What holds at every point of a run.
use agents_universe.Prelude.{
  ◌≤◌, ◌≡◌, refl, true, false, ◌&&◌, ◌||◌, not, List, [], ◌∷◌, ltb, length, arith, Bool-cases, inl,
  inr,
}
use agents_universe.Prelude.Text.{Text}
use agents_universe.Prelude.TextSet.{
  same_iff, elem, subset, elem-discard, subset-cons, length-discard,
}
use agents_universe.Tasks.{Task, Dependencies}
use agents_universe.Tasks.Schedule.{
  Status, failed, skipped, Run, new_run, max_concurrency, offer, dispatch_ready, skip, fail,
  complete, begin, refuse, Step, begins, refuses, completes, fails, stops, looks, dispatches,
  aborts, injects, Reach, here, next,
}

module _ (g : Dependencies) where
  pub record Inv (s : Run) : Type 0 where
    -- a dispatched task is in exactly one place
    pub places :
        (t : Text)
        → elem t s.dispatched
          ≡ (elem t s.waiting || (elem t s.running || (elem t s.completed || elem t s.failed)))
    pub waits_apart :
        (t : Text)
        → elem t s.waiting ≡ true
        → (elem t s.running || (elem t s.completed || elem t s.failed)) ≡ false
    pub runs_apart :
        (t : Text) → elem t s.running ≡ true → (elem t s.completed || elem t s.failed) ≡ false
    pub apart : (t : Text) → elem t s.completed ≡ true → elem t s.failed ≡ false
    -- a task that may run has its dependencies completed
    pub ready :
        (t : Text)
        → (elem t s.waiting || (elem t s.running || elem t s.completed)) ≡ true
        → subset (g.deps t) s.completed ≡ true
    pub limited : length s.running ≤ max_concurrency

  pub Inv-new : (ts : List Task) → Inv (new_run ts)
  unfolding new_run elem
  Inv-new ts = record {
    places = λ t. refl;
    waits_apart = λ t m. cc;
    runs_apart = λ t m. cc;
    apart = λ t m. cc;
    ready = λ t m. cc;
    limited = omega arith;
  }

  Inv-offer : (t : Text) (s : Run) → Inv s → Inv (offer g t s)
  unfolding offer elem
  Inv-offer t s v = record {
    places = λ x. ground (arith, v.places x, same_iff t x);
    waits_apart = λ x m. ground (arith, v.places x, v.waits_apart x, same_iff t x);
    runs_apart = λ x m. ground (arith, v.runs_apart x);
    apart = λ x m. ground (arith, v.apart x);
    ready = λ x m. ground (arith, v.ready x, same_iff t x);
    limited = ground (arith, v.limited);
  }

  Inv-dispatch : (ts : List Text) (s : Run) → Inv s → Inv (dispatch_ready g ts s)
  unfolding dispatch_ready
  Inv-dispatch [] s v = v
  Inv-dispatch (t ∷ ts) s v =
      elim (Bool-cases (not (elem t s.dispatched) && (s.aborted || s.has_input))) [
        | inl stop ↦ simp stop v
        | inr go ↦ simp go (Inv-dispatch ts (offer g t s) (Inv-offer t s v))
      ]

  Inv-skip : (d : Text) (s : Run) → Inv s → Inv (skip g d s)
  unfolding skip elem
  Inv-skip d s v = record {
    places = λ x. ground (arith, v.places x, same_iff d x);
    waits_apart = λ x m. ground (arith, v.places x, v.waits_apart x, same_iff d x);
    runs_apart = λ x m. ground (arith, v.places x, v.runs_apart x, same_iff d x);
    apart = λ x m. ground (arith, v.apart x, same_iff d x);
    ready = λ x m. ground (arith, v.ready x);
    limited = ground (arith, v.limited);
  }

  Inv-begin :
      (t : Text) (s : Run)
      → elem t s.waiting ≡ true
      → ltb (length s.running) max_concurrency ≡ true
      → Inv s
      → Inv (begin t s)
  unfolding begin elem
  Inv-begin t s m room v = record {
    places = λ x. ground (arith, v.places x, elem-discard t x s.waiting, same_iff t x);
    waits_apart = λ x e. ground (arith, v.waits_apart x, elem-discard t x s.waiting, same_iff t x);
    runs_apart = λ x e. ground (arith, v.runs_apart x, v.waits_apart x, same_iff t x);
    apart = λ x e. v.apart x e;
    ready = λ x e. ground (arith, v.ready x, elem-discard t x s.waiting, same_iff t x);
    limited = ground (arith, v.limited);
  }

  Inv-refuse : (t : Text) (s : Run) → elem t s.waiting ≡ true → Inv s → Inv (refuse t s)
  unfolding refuse elem
  Inv-refuse t s m v = record {
    places = λ x. ground (arith, v.places x, elem-discard t x s.waiting, same_iff t x);
    waits_apart = λ x e. ground (arith, v.waits_apart x, elem-discard t x s.waiting, same_iff t x);
    runs_apart = λ x e. ground (arith, v.runs_apart x, v.waits_apart x, same_iff t x);
    apart = λ x e. ground (arith, v.apart x, v.waits_apart x, same_iff t x);
    ready = λ x e. ground (arith, v.ready x, elem-discard t x s.waiting, same_iff t x);
    limited = v.limited;
  }

  Inv-complete : (t : Text) (s : Run) → elem t s.running ≡ true → Inv s → Inv (complete t s)
  unfolding complete elem
  Inv-complete t s m v = record {
    places = λ x. ground (arith, v.places x, elem-discard t x s.running, same_iff t x);
    waits_apart = λ x e. ground (arith, v.waits_apart x, elem-discard t x s.running, same_iff t x);
    runs_apart = λ x e. ground (arith, v.runs_apart x, elem-discard t x s.running, same_iff t x);
    apart = λ x e. ground (arith, v.apart x, v.runs_apart x, same_iff t x);
    ready = λ x e.
        subset-cons (g.deps x) s.completed t
          (ground (arith, v.ready x, elem-discard t x s.running, same_iff t x));
    limited = omega (arith, v.limited, length-discard t s.running);
  }

  Inv-fail :
      (t : Text) (status : Status) (s : Run)
      → elem t s.running ≡ true
      → Inv s
      → Inv (fail g t status s)
  unfolding fail elem
  Inv-fail t status s m v = record {
    places = λ x. ground (arith, v.places x, elem-discard t x s.running, same_iff t x);
    waits_apart = λ x e. ground (arith, v.waits_apart x, elem-discard t x s.running, same_iff t x);
    runs_apart = λ x e. ground (arith, v.runs_apart x, elem-discard t x s.running, same_iff t x);
    apart = λ x e. ground (arith, v.apart x, v.runs_apart x, same_iff t x);
    ready = λ x e. ground (arith, v.ready x, elem-discard t x s.running, same_iff t x);
    limited = omega (arith, v.limited, length-discard t s.running);
  }

  -- The invariant speaks of five of the sets.
  Inv-eq :
      (s t : Run)
      → t.dispatched ≡ s.dispatched
      → t.waiting ≡ s.waiting
      → t.running ≡ s.running
      → t.completed ≡ s.completed
      → t.failed ≡ s.failed
      → Inv s
      → Inv t
  Inv-eq s t d wt r c f v = record {
    places = λ x. rw (d, wt, r, c, f) (v.places x);
    waits_apart = λ x e. rw (r, c, f) (v.waits_apart x (rw wt at e));
    runs_apart = λ x e. rw (c, f) (v.runs_apart x (rw r at e));
    apart = λ x e. rw f (v.apart x (rw c at e));
    ready = λ x e. rw c (v.ready x (rw (wt, r, c) at e));
    limited = rw r v.limited;
  }

  pub Inv-Step : {s t : Run} → Step g s t → Inv s → Inv t
  Inv-Step (begins s t m room a) v = Inv-begin t s m room v
  Inv-Step (refuses s t m a) v = Inv-refuse t s m v
  Inv-Step (completes s t m a) v = Inv-complete t s m v
  Inv-Step (fails s t m) v = Inv-fail t failed s m v
  Inv-Step (stops s t m a) v = Inv-fail t skipped s m v
  Inv-Step (looks s d m) v = Inv-skip d _ (Inv-eq s _ refl refl refl refl refl v)
  Inv-Step (dispatches s n e) v =
      Inv-eq (dispatch_ready g g.tasks s) _ refl refl refl refl refl (Inv-dispatch g.tasks s v)
  Inv-Step (aborts s) v = Inv-eq s _ refl refl refl refl refl v
  Inv-Step (injects s) v = Inv-eq s _ refl refl refl refl refl v

  Inv-Reach : {s t : Run} → Inv s → Reach g s t → Inv t
  Inv-Reach v here = v
  Inv-Reach v (next r st) = Inv-Step st (Inv-Reach v r)

-- At every point of a run, whatever tasks fail, and whenever the run is aborted or interrupted: at
-- most three tasks run at a time, a task that waits, runs or has completed has all its dependencies
-- completed, and a dispatched task is in exactly one of the four places.
pub run-Inv : (g : Dependencies) (ts : List Task) (s : Run) → Reach g (new_run ts) s → Inv g s
run-Inv g ts s r = Inv-Reach g (Inv-new g ts) r
