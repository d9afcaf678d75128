-- ===== src/Cron/Field/Meaning.antt =====
-- What a field of scheduling/cron.py means: a number is allowed exactly when some part covers it.
use agents_universe.Prelude.{
  ℕ, ◌≡◌, sym, ◌∙◌, ◌↔◌, ◌⊎◌, inl, inr, ◌≢◌, String, Bool, true, false, ◌||◌, List, [], ◌∷◌, arith,
}
use agents_universe.Prelude.Text.{Text, strip, split_on}
use agents_universe.Cron.Error.{ok, >>=-ok}
use agents_universe.Cron.Values.{elem, discard, update, range}
use agents_universe.Cron.Values.Laws.{InRange, elem-add, elem-discard, elem-update, elem-range}
use agents_universe.Cron.Field.{
  Field, Stepped, Span, parse_field, parts_values, part_values, take_step, take_span, alias_sunday,
}
use agents_universe.Cron.Field.Laws.{Reads, part_values-Reads, take_step-pos, parse_field-parts}

-- The part reads as a progression with `v` in it.
pub record Covers (name : String) (lo hi : ℕ) (raw : Text) (v : ℕ) : Type 0 where
  pub s : Stepped
  pub r : Span
  pub step_read : take_step name (strip raw) ≡ ok s
  pub span_read : take_span name lo hi s ≡ ok r
  pub inside : InRange r.start r.last s.step v

-- Some part covers `v`.
abbrev pub AnyCovers : String → ℕ → ℕ → List Text → ℕ → Type 0
AnyCovers name lo hi [] v = ⊥
AnyCovers name lo hi (raw ∷ raws) v = Covers name lo hi raw v ⊎ AnyCovers name lo hi raws v

Reads-Covers :
    (name : String) (lo hi : ℕ) (raw : Text) (vs : List ℕ) (v : ℕ)
    → Reads name lo hi raw vs
    → (elem v vs ≡ true) ↔ Covers name lo hi raw v
Reads-Covers name lo hi raw vs v d = (there, back)
  where
    spread :
        (elem v (range d.r.start d.r.last d.s.step) ≡ true) ↔ InRange d.r.start d.r.last d.s.step v
    spread =
        elem-range d.r.start d.r.last d.s.step v (take_step-pos name (strip raw) d.s d.step_read)

    there : elem v vs ≡ true → Covers name lo hi raw v
    there h = record {
      s = d.s;
      r = d.r;
      step_read = d.step_read;
      span_read = d.span_read;
      inside = spread.0 (rw d.progression at h);
    }

    back : Covers name lo hi raw v → elem v vs ≡ true
    back c =
        let same_step : c.s ≡ d.s = cc (c.step_read, d.step_read) in
        let same_span : c.r ≡ d.r = cc (c.span_read, d.span_read, same_step) in
        rw d.progression (spread.1 (rw (← same_span, ← same_step) c.inside))

nothing : (w : ℕ) → elem w [] ≡ true → ⊥
unfolding elem
nothing w e = cc

or_true : (a b : Bool) → ((a || b) ≡ true) ↔ ((a ≡ true) ⊎ (b ≡ true))
or_true a b = ground arith

parts_values-AnyCovers :
    (name : String) (lo hi : ℕ) (raws : List Text) (acc vs : List ℕ) (v : ℕ)
    → parts_values name lo hi raws acc ≡ ok vs
    → (elem v vs ≡ true) ↔ (AnyCovers name lo hi raws v ⊎ (elem v acc ≡ true))
unfolding parts_values
parts_values-AnyCovers name lo hi [] acc vs v h = (λ e. inr (ground arith), λ e. ground arith)
parts_values-AnyCovers name lo hi (raw ∷ raws) acc vs v h =
    let (ws, got, rest) = >>=-ok (part_values name lo hi raw) _ h in
    let part = Reads-Covers name lo hi raw ws v (part_values-Reads name lo hi raw ws got) in
    let later = parts_values-AnyCovers name lo hi raws (update acc ws) vs v rest in
    let joined = or_true (elem v ws) (elem v acc) in
    let e = elem-update v acc ws in
    (
      λ h. elim (later.0 h) [
        | inl l ↦ inl (inr l)
        | inr now ↦ elim (joined.0 (sym e ∙ now)) [
          | inl c ↦ inl (inl (part.0 c))
          | inr old ↦ inr old
        ]
      ],
      λ h. later.1 (elim h [
        | inl (inl c) ↦ inr (e ∙ joined.1 (inl (part.1 c)))
        | inl (inr l) ↦ inl l
        | inr old ↦ inr (e ∙ joined.1 (inr old))
      ]),
    )

-- The values of a field after the alias of Sunday: 7 counts for 0.
abbrev pub Aliased : Bool → (ℕ → Type 0) → ℕ → Type 0
Aliased false P v = P v
Aliased true P v = ((v ≢ 7) × P v) ⊎ ((v ≡ 0) × P 7)

alias_sunday-Aliased :
    (sunday_alias : Bool) (vs : List ℕ) (v : ℕ)
    → (elem v (alias_sunday sunday_alias vs) ≡ true)
      ↔ Aliased sunday_alias (λ w. elem w vs ≡ true) v
unfolding alias_sunday
alias_sunday-Aliased false vs v = (λ h. h, λ h. h)
alias_sunday-Aliased true vs v = ground (arith, elem-add 0 v (discard 7 vs), elem-discard 7 v vs)

Aliased-map :
    (sunday_alias : Bool) (P Q : ℕ → Type 0) (v : ℕ)
    → ((w : ℕ) → P w → Q w)
    → Aliased sunday_alias P v
    → Aliased sunday_alias Q v
Aliased-map false P Q v f p = f v p
Aliased-map true P Q v f (inl (ne, p)) = inl (ne, f v p)
Aliased-map true P Q v f (inr (z, p)) = inr (z, f 7 p)

-- A number is a value of a parsed field exactly when a part of the text, split at the commas,
-- covers it as a progression of its span by its step; for the weekday 7 counts for 0.
pub parse_field-AnyCovers :
    (raw : Text) (name : String) (lo hi : ℕ) (sunday_alias : Bool) (f : Field) (v : ℕ)
    → parse_field raw name lo hi sunday_alias ≡ ok f
    → (elem v f.values ≡ true)
      ↔ Aliased sunday_alias (AnyCovers name lo hi (split_on b',' (strip raw))) v
parse_field-AnyCovers raw name lo hi sunday_alias f v h =
    let (vs, got, same, ne) = parse_field-parts raw name lo hi sunday_alias f h in
    let raws = split_on b',' (strip raw) in
    let covered = λ (w : ℕ). parts_values-AnyCovers name lo hi raws [] vs w got in
    let aliased = alias_sunday-Aliased sunday_alias vs v in
    (
      λ e.
          Aliased-map sunday_alias _ _ v (λ w p. from_parts raws w ((covered w).0 p))
            (aliased.0 (rw same at e)),
      λ p. rw same (aliased.1 (Aliased-map sunday_alias _ _ v (λ w c. (covered w).1 (inl c)) p)),
    )
  where
    from_parts :
        (raws : List Text) (w : ℕ)
        → AnyCovers name lo hi raws w ⊎ (elem w [] ≡ true)
        → AnyCovers name lo hi raws w
    from_parts raws w (inl c) = c
    from_parts raws w (inr e) = absurd (nothing w e)
