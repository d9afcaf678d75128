-- ===== src/Schedules/Ticks.antt =====
-- Ticks of several replicas, or of one loop that races itself: each reads the due rows, and commits its
-- claims later, when other ticks may have committed theirs.
use agents_universe.Prelude.{
  ℕ, ◌<◌, ◌≤◌, ◌≡◌, ◌≢◌, ◌⊎◌, refl, sym, ap, ◌∙◌, Bool, true, false, ◌&&◌, Option, none, some, List,
  [], ◌∷◌, ◌++◌, map, leb→le, ◌==◌, ==_iff, All, All-map, All-take, All-append, All-split, All-keep,
  arith, Bool-cases, inl, inr,
}
use mathlib.Core.List.{append-nil, append_assoc}
use agents_universe.Prelude.Text.{Text}
use agents_universe.Prelude.TextSet.{same, same_iff, elem, distinct}
use agents_universe.Prelude.Fallible.{bind-some, some_inj}
use agents_universe.Cron.Error.{Result, ok, err}
use agents_universe.Cron.Next.{Zone, aware, instant, next_run_at}
use agents_universe.Cron.Next.Scan.{IsMonotone, Due-later}
use agents_universe.Cron.Next.Run.{IsCalendar, next_run_at-Due}
use agents_universe.Schedules.{
  ScheduledTask, Upcoming, at, invalid, raised, caught, expect, disable, is_due, due_rows, holds,
  swap, disable_row, Claim, won, claim_due,
}

-- A tick that has read its rows.
pub record Tick : Type 0 where
  pub now : ℕ
  pub due : List ScheduledTask

pub record World : Type 0 where
  pub rows : List ScheduledTask
  pub ticks : List Tick
  -- the claims that were committed, in their order
  pub claimed : List Claim

pub data Step (zones : Text → Option Zone) : World → World → Type 0 where
  reads :
      (w : World) (is_active : Text → Bool) (order : List ScheduledTask → List ScheduledTask)
      (now : ℕ)
      → Step zones w (record w {
        ticks = record { now = now; due = due_rows is_active order now w.rows } ∷ w.ticks;
      })
  commits :
      (w : World) (before after : List Tick) (t : Tick) (rows : List ScheduledTask)
      (claims : List Claim)
      → w.ticks ≡ before ++ t ∷ after
      → claim_due zones t.now t.due w.rows ≡ some (rows, claims)
      → Step zones w
          (record { rows = rows; ticks = before ++ after; claimed = w.claimed ++ claims })
  -- an exception, a failed commit or the end of the process
  rolls_back :
      (w : World) (before after : List Tick) (t : Tick)
      → w.ticks ≡ before ++ t ∷ after
      → Step zones w (record w { ticks = before ++ after })

pub data Reach (zones : Text → Option Zone) (w : World) : World → Type 0 where
  here : Reach zones w w
  next : {v u : World} → Reach zones w v → Step zones v u → Reach zones w u

-- The first fire time is known, and the second, if there is one, is later.
abbrev pub Before : Option ℕ → Option ℕ → Type 0
Before none n = ⊥
Before (some o) none = Unit
Before (some o) (some n) = o < n

-- Of each schedule a claim takes a later fire time than all claims before it.
abbrev pub Rises : List Claim → Type 0
Rises [] = Unit
Rises (c ∷ claims) =
    (c.occurrence ≢ none)
    × All (λ d. c.schedule_id ≡ d.schedule_id → Before c.occurrence d.occurrence) claims
    × Rises claims

-- The schedule's row waits for a later time than the claim.
abbrev Ahead : Claim → ScheduledTask → Type 0
Ahead c r = c.schedule_id ≡ r.schedule_id → Before c.occurrence r.next_run_at

Rises-append :
    (claims : List Claim) (c : Claim)
    → Rises claims
    → c.occurrence ≢ none
    → All (λ e. e.schedule_id ≡ c.schedule_id → Before e.occurrence c.occurrence) claims
    → Rises (claims ++ c ∷ [])
Rises-append [] c r known a = (known, tt, tt)
Rises-append (e ∷ claims) c r known a =
    (r.0, All-append _ claims (c ∷ []) r.1 (a.0, tt), Rises-append claims c r.2 known a.1)

-- The fire time that a claim takes was due.
abbrev IsPast : ℕ → ScheduledTask → Type 0
IsPast now t = (o : ℕ) → t.next_run_at ≡ some o → o ≤ now

Before-later :
    (o x observed : Option ℕ) (u : ℕ)
    → holds x observed ≡ true
    → ((n : ℕ) → observed ≡ some n → n < u)
    → Before o x
    → Before o (some u)
unfolding holds
Before-later o none observed u h past b = cc
Before-later o (some n) none u h past b = cc
Before-later none (some n) (some m) u h past b = b
Before-later (some k) (some n) (some m) u h past b = ground (arith, past m refl)

-- A time that was due is before the one that takes its place.
Before-new :
    (observed : Option ℕ) (u : ℕ)
    → observed ≢ none
    → ((n : ℕ) → observed ≡ some n → n < u)
    → Before observed (some u)
Before-new none u known past = absurd (known refl)
Before-new (some n) u known past = past n refl

swap-Ahead :
    (c : Claim) (id : Text) (observed : Option ℕ) (u now : ℕ) (rows : List ScheduledTask)
    → ((o : ℕ) → observed ≡ some o → o < u)
    → All (Ahead c) rows
    → All (Ahead c) (swap id observed u now rows).0
unfolding swap holds
swap-Ahead c id observed u now [] past a = tt
swap-Ahead c id observed u now (t ∷ ts) past a =
    let rest = swap-Ahead c id observed u now ts past a.1 in
    elim (Bool-cases (same t.schedule_id id && holds t.next_run_at observed)) [
      | inl taken ↦
          rw (taken, swap)
            (
              λ e. Before-later c.occurrence t.next_run_at observed u (ground arith) past (a.0 e),
              rest,
            )
      | inr kept ↦ rw (kept, swap) (a.0, rest)
    ]

swap-ids :
    (id : Text) (observed : Option ℕ) (u now : ℕ) (rows : List ScheduledTask)
    → map (λ t. t.schedule_id) (swap id observed u now rows).0 ≡ map (λ t. t.schedule_id) rows
unfolding swap
swap-ids id observed u now [] = refl
swap-ids id observed u now (t ∷ ts) = ground (arith, swap-ids id observed u now ts)

disable-ids :
    (id : Text) (rows : List ScheduledTask)
    → map (λ t. t.schedule_id) (disable_row id rows) ≡ map (λ t. t.schedule_id) rows
unfolding disable_row disable
disable-ids id [] = refl
disable-ids id (t ∷ ts) = ground (arith, disable-ids id ts)

Before-none : (o n : Option ℕ) → Before o n → Before o none
Before-none none n b = b
Before-none (some o) n b = tt

disable-Ahead :
    (c : Claim) (id : Text) (rows : List ScheduledTask)
    → All (Ahead c) rows
    → All (Ahead c) (disable_row id rows)
unfolding disable_row disable
disable-Ahead c id [] a = tt
disable-Ahead c id (t ∷ ts) a = elim (Bool-cases (same t.schedule_id id)) [
  | inl hit ↦
      rw hit (λ e. Before-none c.occurrence t.next_run_at (a.0 e), disable-Ahead c id ts a.1)
  | inr other ↦ rw other (a.0, disable-Ahead c id ts a.1)
]

unfoldable pub ids : List ScheduledTask → List Text
ids = map (λ t. t.schedule_id)

-- A schedule that has no row is not waited for.
Ahead-absent :
    (c : Claim) (rows : List ScheduledTask)
    → elem c.schedule_id (ids rows) ≡ false
    → All (Ahead c) rows
unfolding elem ids
Ahead-absent c [] h = tt
Ahead-absent c (t ∷ ts) h = (
  (λ e. absurd (ground (arith, (same_iff t.schedule_id c.schedule_id).1 (sym e)))),
  Ahead-absent c ts (ground arith),
)

holds-known : (x observed : Option ℕ) → holds x observed ≡ true → observed ≢ none
unfolding holds
holds-known none observed h = cc
holds-known (some n) none h = cc
holds-known (some n) (some m) h = λ e. cc

swap_absent :
    (id : Text) (observed : Option ℕ) (u now : ℕ) (rows : List ScheduledTask)
    → elem id (ids rows) ≡ false
    → (swap id observed u now rows).1 ≡ 0
unfolding swap elem ids
swap_absent id observed u now [] h = refl
swap_absent id observed u now (t ∷ ts) h = ground (arith, swap_absent id observed u now ts)

-- A swap that finds its row leaves it waiting for a later time than the one that it takes.
swap-claims :
    (id : Text) (observed : Option ℕ) (u now : ℕ) (rows : List ScheduledTask)
    → distinct (ids rows) ≡ true
    → ((n : ℕ) → observed ≡ some n → n < u)
    → (swap id observed u now rows).1 ≡ 1
    → (observed ≢ none)
      × All
          (Ahead (record { schedule_id = id; occurrence = observed }))
          (swap id observed u now rows).0
unfolding swap distinct ids
swap-claims id observed u now [] once past found = cc
swap-claims id observed u now (t ∷ ts) once past found = elim (Bool-cases (same t.schedule_id id)) [
  | inl hit ↦
      let one : t.schedule_id ≡ id = (same_iff t.schedule_id id).0 hit in
      let alone : elem id (ids ts) ≡ false = rw (← one) (ground arith) in
      let none_else = swap_absent id observed u now ts alone in
      elim (Bool-cases (holds t.next_run_at observed)) [
        | inl due ↦
            let known = holds-known t.next_run_at observed due in
            rw (hit, due, swap)
              (
                known,
                (
                  (λ e. Before-new observed u known past),
                  Ahead-absent (record { schedule_id = id; occurrence = observed })
                      (swap id observed u now ts).0 (rw (swap-ids id observed u now ts) alone),
                ),
              )
        | inr moved ↦ absurd (ground arith)
      ]
  | inr other ↦
      let (known, rest) = swap-claims id observed u now ts (ground arith) past (ground arith) in
      rw (other, swap)
        (known, ((λ e. absurd (ground (arith, (same_iff t.schedule_id id).1 (sym e)))), rest))
]

holds-same : (o x observed : Option ℕ) → holds x observed ≡ true → Before o x → Before o observed
unfolding holds
holds-same o none observed h b = cc
holds-same o (some n) none h b = cc
holds-same o (some n) (some m) h b = rw (← (==_iff n m).0 h) b

-- A swap that finds its row takes a later time than each claim that the row waits behind.
swap-hit :
    (c : Claim) (id : Text) (observed : Option ℕ) (u now : ℕ) (rows : List ScheduledTask)
    → (swap id observed u now rows).1 ≢ 0
    → All (Ahead c) rows
    → c.schedule_id ≡ id
    → Before c.occurrence observed
unfolding swap
swap-hit c id observed u now [] found a e = absurd (found refl)
swap-hit c id observed u now (t ∷ ts) found a e =
    elim (Bool-cases (same t.schedule_id id && holds t.next_run_at observed)) [
      | inl hit ↦
          let one : t.schedule_id ≡ id = (same_iff t.schedule_id id).0 (ground arith) in
          holds-same c.occurrence t.next_run_at observed (ground arith) (a.0 (e ∙ sym one))
      | inr miss ↦ swap-hit c id observed u now ts (λ z. found (rw (miss, swap) z)) a.1 e
    ]

pub Upcoming-cases : (x : Upcoming) → (x ≡ raised) ⊎ ((x ≡ invalid) ⊎ ((u : ℕ) × (x ≡ at u)))
Upcoming-cases (at u) = inr (inr (u, refl))
Upcoming-cases invalid = inr (inl refl)
Upcoming-cases raised = inl refl

pub caught-at : (r : Result ℕ) (u : ℕ) → caught r ≡ at u → r ≡ ok u
unfolding caught
caught-at (err e) u h = absurd (ground arith)
caught-at (ok v) u h = ground arith

-- What holds at every point of a run of ticks.
record Inv (w : World) : Type 0 where
  once : distinct (ids w.rows) ≡ true
  rises : Rises w.claimed
  ahead : All (λ c. All (Ahead c) w.rows) w.claimed
  past : All (λ t. All (IsPast t.now) t.due) w.ticks

module _ (zones : Text → Option Zone)
    (good : (tz : Text) (zone : Zone)
      → zones tz ≡ some zone
      → IsMonotone zone × IsCalendar zone) where
  pub expect-later : (t : ScheduledTask) (now u : ℕ) → expect zones t now ≡ at u → now < u
  unfolding expect instant
  expect-later t now u e =
      let found = caught-at (next_run_at zones t.cron_expr t.timezone (aware now)) u e in
      let (i, due) =
        next_run_at-Due zones t.cron_expr t.timezone (aware now) u
          (λ zone known. (good t.timezone zone known).1) found in
      Due-later i.zone i.s now u (good t.timezone i.zone i.known).0 due

  -- One round of the loop keeps it.
  swap-Inv :
      (now u : ℕ) (t : ScheduledTask) (rows : List ScheduledTask) (claimed : List Claim)
      (ticks : List Tick)
      → IsPast now t
      → now < u
      → Inv (record { rows = rows; ticks = ticks; claimed = claimed })
      → Inv (record {
        rows = (swap t.schedule_id t.next_run_at u now rows).0;
        ticks = ticks;
        claimed = claimed ++ won t (swap t.schedule_id t.next_run_at u now rows).1;
      })
  unfolding won ids
  swap-Inv now u t rows claimed ticks past later v =
      let soon : (n : ℕ) → t.next_run_at ≡ some n → n < u = λ n e. omega (arith, past n e) in
      let rows' = (swap t.schedule_id t.next_run_at u now rows).0 in
      let waits : All (λ c. All (Ahead c) rows') claimed =
        All-map _ _ (λ c a. swap-Ahead c t.schedule_id t.next_run_at u now rows soon a) claimed
          v.ahead in
      let unique : distinct (ids rows') ≡ true =
        rw (swap-ids t.schedule_id t.next_run_at u now rows) v.once in
      elim (Bool-cases ((swap t.schedule_id t.next_run_at u now rows).1 == 1)) [
        | inl found ↦
            rw (found, won)
              (let (known, mine) =
                  swap-claims t.schedule_id t.next_run_at u now rows v.once soon
                    ((==_iff _ 1).0 found) in
                record {
                  once = unique;
                  rises = Rises-append claimed _ v.rises known (
                      All-map _ _
                        (λ c a.
                          swap-hit c t.schedule_id t.next_run_at u now rows (λ e. ground (arith, e))
                            a)
                        claimed v.ahead);
                  ahead = All-append _ claimed _ waits (mine, tt);
                  past = v.past;
                })
        | inr missed ↦
            rw (missed, won, append-nil claimed)
              (record { once = unique; rises = v.rises; ahead = waits; past = v.past })
      ]

  -- The claims of one commit keep it.
  claim_due-Inv :
      (now : ℕ) (due rows final : List ScheduledTask) (claimed claims : List Claim)
      (ticks : List Tick)
      → All (IsPast now) due
      → Inv (record { rows = rows; ticks = ticks; claimed = claimed })
      → claim_due zones now due rows ≡ some (final, claims)
      → Inv (record { rows = final; ticks = ticks; claimed = claimed ++ claims })
  unfolding claim_due distinct ids
  claim_due-Inv now [] rows final claimed claims ticks past v e =
      let p = some_inj e in
      rw
        (
          ← ap (λ (r : List ScheduledTask × List Claim). r.0) p,
          ← ap (λ (r : List ScheduledTask × List Claim). r.1) p,
          append-nil claimed,
        )
        v
  claim_due-Inv now (t ∷ due) rows final claimed claims ticks past v e =
      elim (Upcoming-cases (expect zones t now)) [
        | inl stop ↦ absurd (ground arith)
        | inr (inl broken) ↦
            claim_due-Inv now due (disable_row t.schedule_id rows) final claimed claims ticks past.1
              (record {
                once = rw (disable-ids t.schedule_id rows) v.once;
                rises = v.rises;
                ahead = All-map _ _ (λ c a. disable-Ahead c t.schedule_id rows a) claimed v.ahead;
                past = v.past;
              })
              (rw (broken, claim_due) at e)
        | inr (inr (u, found)) ↦
            let (rows', rowcount) = swap t.schedule_id t.next_run_at u now rows in
            let (rest, e', e'') =
              bind-some (claim_due zones now due rows') _ _ (rw (found, claim_due) at e) in
            let p = some_inj e'' in
            let v' =
              claim_due-Inv now due rows' rest.0 (claimed ++ won t rowcount) rest.1 ticks past.1
                (swap-Inv now u t rows claimed ticks past.0 (expect-later t now u found) v) e' in
            rw
              (
                ← ap (λ (r : List ScheduledTask × List Claim). r.0) p,
                ← ap (λ (r : List ScheduledTask × List Claim). r.1) p,
                ← append_assoc claimed (won t rowcount) rest.1,
              )
              v'
      ]

  Step-Inv : {w u : World} → Step zones w u → Inv w → Inv u
  unfolding due_rows is_due
  Step-Inv (reads w is_active order now) v = record {
    once = v.once;
    rises = v.rises;
    ahead = v.ahead;
    past = (
      All-take (IsPast now) 20 _ (
          All-keep (IsPast now) (is_due is_active now) (order w.rows)
            (λ t h o e. leb→le o now (ground arith))),
      v.past,
    );
  }
  Step-Inv (commits w before after t rows claims waits done) v =
      let (first, rest) = All-split _ before (t ∷ after) (rw (← waits) v.past) in
      claim_due-Inv t.now t.due w.rows rows w.claimed claims (before ++ after) rest.0
        (record {
          once = v.once;
          rises = v.rises;
          ahead = v.ahead;
          past = All-append _ before after first rest.1;
        })
        done
  Step-Inv (rolls_back w before after t waits) v =
      let (first, rest) = All-split _ before (t ∷ after) (rw (← waits) v.past) in
      record {
        once = v.once;
        rises = v.rises;
        ahead = v.ahead;
        past = All-append _ before after first rest.1;
      }

  Reach-Inv : {w u : World} → Inv w → Reach zones w u → Inv u
  Reach-Inv v here = v
  Reach-Inv v (next r s) = Step-Inv s (Reach-Inv v r)

  -- However many ticks read and commit, in whatever order, and whatever commits fail: of each
  -- schedule every claim takes a later fire time than all claims before it, so that no fire time is
  -- claimed twice; where no two rows share an id and the readings of each zone follow its instants
  -- on days with no transition.
  pub Reach-Rises :
      (rows : List ScheduledTask) (w : World)
      → distinct (ids rows) ≡ true
      → Reach zones (record { rows = rows; ticks = []; claimed = [] }) w
      → Rises w.claimed
  Reach-Rises rows w once r =
      (Reach-Inv (record { once = once; rises = tt; ahead = tt; past = tt }) r).rises
