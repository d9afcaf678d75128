-- ===== src/Compressor/Early/Split.antt =====
-- The split of a history: nothing is lost, and the recent part can lead a request.
use mathlib.Core.List.{append_assoc, append-nil}
use agents_universe.Prelude.{
  ◌-◌, ◌≤◌, ◌≡◌, refl, ◌∙◌, true, false, List, [], ◌∷◌, ◌++◌, arith, length, take, drop,
  take-append-drop, length-drop, All, Bool-cases, ap, sym, inl, inr, length-append,
}
use agents_universe.Compressor.Message.{Message}
use agents_universe.Compressor.Early.{
  is_dangling, pop_dangling, split_early_recent, recent_turns_keep,
}

abbrev pub Dangling : Message → Type 0
Dangling m = is_dangling m ≡ true

-- The first message is none that dangles.
abbrev pub Leads : List Message → Type 0
Leads [] = Unit
Leads (m ∷ ms) = is_dangling m ≡ false

-- The two parts of a split, and the dangling messages that went from the second to the first.
pub record IsSplit (early recent : List Message) (r : List Message × List Message) : Type 0 where
  pub moved : List Message
  pub dangling : All Dangling moved
  pub first : r.0 ≡ early ++ moved
  pub whole : moved ++ r.1 ≡ recent
  pub leads : Leads r.1

pop_dangling-IsSplit :
    (early recent : List Message) → IsSplit early recent (pop_dangling early recent)
unfolding pop_dangling
pop_dangling-IsSplit early [] = record {
  moved = [];
  dangling = tt;
  first = sym (append-nil early);
  whole = refl;
  leads = tt;
}
pop_dangling-IsSplit early (m ∷ recent) = elim (Bool-cases (is_dangling m)) [
  | inl e ↦
      let later = pop_dangling-IsSplit (early ++ m ∷ []) recent in
      rw e (record {
        moved = m ∷ later.moved;
        dangling = (e, later.dangling);
        first = later.first ∙ append_assoc early (m ∷ []) later.moved;
        whole = ap (◌∷◌ m) later.whole;
        leads = later.leads;
      })
  | inr e ↦ rw e (record {
    moved = [];
    dangling = tt;
    first = sym (append-nil early);
    whole = refl;
    leads = e;
  })
]

length-moved : (moved r recent : List Message) → moved ++ r ≡ recent → length r ≤ length recent
length-moved moved r recent e = omega (arith, ap length e, length-append moved r)

-- The early and the recent messages are the history, in order; the recent ones are at most eight,
-- and do not begin with a tool result or an assistant message that calls tools; and only such
-- messages are moved from the last eight to the early ones.
pub split_lem :
    (ms : List Message)
    → ((split_early_recent ms).0 ++ (split_early_recent ms).1 ≡ ms)
      × (length (split_early_recent ms).1 ≤ recent_turns_keep)
      × IsSplit
          (take (length ms - recent_turns_keep) ms)
          (drop (length ms - recent_turns_keep) ms)
          (split_early_recent ms)
unfolding split_early_recent
split_lem ms =
    let cut = length ms - recent_turns_keep in
    let s = pop_dangling-IsSplit (take cut ms) (drop cut ms) in
    (
      ap (λ (x : List Message). x ++ (pop_dangling (take cut ms) (drop cut ms)).1) s.first
          ∙ append_assoc (take cut ms) s.moved _
          ∙ ap (◌++◌ (take cut ms)) s.whole
          ∙ take-append-drop cut ms,
      omega (arith, length-moved s.moved _ _ s.whole, length-drop cut ms),
      s,
    )
