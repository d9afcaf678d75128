-- ===== src/Cron/Field/Laws.antt =====
-- The values of a parsed field: their bounds and order, and the progressions that they come from.
use agents_universe.Prelude.{
  ℕ, zero, suc, ◌≤◌, ◌<◌, ◌≡◌, refl, sym, ◌∙◌, inl, inr, ◌≢◌, String, Bool, true, false, Option,
  none, some, List, [], ◌∷◌, arith, All, All-map, Bool-cases,
}
use agents_universe.Prelude.Text.{Text, strip, partition, split_on}
use agents_universe.Cron.Error.{ok, ◌>>=◌, >>=-ok}
use agents_universe.Cron.Values.{elem, discard, update, range}
use agents_universe.Cron.Values.Laws.{
  Above, Below, elem-discard, Above-add, Above-discard, Above-update, Below-add, Below-update,
  Below-discard, Below-tighten, range-All,
}
use agents_universe.Cron.Field.{
  Field, Stepped, Span, finish, parse_field, parts_values, part_values, take_step, take_span,
  int_field, parse_digits, checked_value, checked_step, alias_sunday,
}

checked_value_bounds :
    (name : String) (lo hi : ℕ) (o : Option ℕ) (v : ℕ)
    → checked_value name lo hi o ≡ ok v
    → (lo ≤ v) × (v ≤ hi)
unfolding checked_value
checked_value_bounds name lo hi none v h = cc
checked_value_bounds name lo hi (some w) v h = ground arith

int_field_bounds :
    (t : Text) (name : String) (lo hi v : ℕ) → int_field t name lo hi ≡ ok v → (lo ≤ v) × (v ≤ hi)
unfolding int_field
int_field_bounds t name lo hi v h = checked_value_bounds name lo hi (parse_digits t) v h

checked_step-pos :
    (name : String) (part : Text) (o : Option ℕ) (s : Stepped)
    → checked_step name part o ≡ ok s
    → 0 < s.step
unfolding checked_step
checked_step-pos name part none s h = cc
checked_step-pos name part (some zero) s h = cc
checked_step-pos name part (some (suc n)) s h = ground arith

pub take_step-pos :
    (name : String) (part : Text) (s : Stepped) → take_step name part ≡ ok s → 0 < s.step
unfolding take_step
take_step-pos name part s h =
    ground (
      arith,
      checked_step-pos name (partition b'/' part).0 (parse_digits (partition b'/' part).1) s,
    )

-- A span stays within the bounds of its field.
take_span_bounds :
    (name : String) (lo hi : ℕ) (s : Stepped) (r : Span)
    → take_span name lo hi s ≡ ok r
    → (lo ≤ r.start) × (r.last ≤ hi)
unfolding take_span
take_span_bounds name lo hi s r h = grind (arith, int_field_bounds)

-- How a part of a field was read: its step, its span, and the progression that they make.
pub record Reads (name : String) (lo hi : ℕ) (raw : Text) (vs : List ℕ) : Type 0 where
  pub s : Stepped
  pub r : Span
  pub step_read : take_step name (strip raw) ≡ ok s
  pub span_read : take_span name lo hi s ≡ ok r
  pub progression : vs ≡ range r.start r.last s.step

pub part_values-Reads :
    (name : String) (lo hi : ℕ) (raw : Text) (vs : List ℕ)
    → part_values name lo hi raw ≡ ok vs
    → Reads name lo hi raw vs
unfolding part_values
part_values-Reads name lo hi raw vs h = read (strip raw) refl
  where
    steps :
        (t : Text)
        → (do s ← take_step name t; r ← take_span name lo hi s; ok (range r.start r.last s.step))
          ≡ ok vs
        → strip raw ≡ t
        → Reads name lo hi raw vs
    steps t e i =
        let (s, es, rest) = >>=-ok (take_step name t) _ e in
        let (r, er, final) = >>=-ok (take_span name lo hi s) _ rest in
        record { s = s; r = r; step_read = rw i es; span_read = er; progression = ground arith }

    read : (t : Text) → strip raw ≡ t → Reads name lo hi raw vs
    read [] i = absurd (ground arith)
    read (c ∷ t) i = steps (c ∷ t) (ground arith) i

Above-part :
    (name : String) (lo hi : ℕ) (raw : Text) (vs : List ℕ)
    → part_values name lo hi raw ≡ ok vs
    → All (λ v. lo ≤ v) vs × Below hi vs
Above-part name lo hi raw vs h =
    let d = part_values-Reads name lo hi raw vs h in
    let (low, high) = take_span_bounds name lo hi d.s d.r d.span_read in
    let (ups, downs) = range-All d.r.start d.r.last d.s.step in
    rw d.progression (
      All-map (λ v. d.r.start ≤ v) (λ v. lo ≤ v) (λ v p. omega arith) _ ups,
      All-map (λ v. v ≤ d.r.last) (λ v. v ≤ hi) (λ v p. omega arith) _ downs,
    )

parts_values_bounds :
    (name : String) (lo hi : ℕ) (raws : List Text) (acc vs : List ℕ)
    → Above lo acc
    → Below hi acc
    → parts_values name lo hi raws acc ≡ ok vs
    → Above lo vs × Below hi vs
unfolding parts_values
parts_values_bounds name lo hi [] acc vs a b h = ground arith
parts_values_bounds name lo hi (raw ∷ raws) acc vs a b h =
    let (ws, got, rest) = >>=-ok (part_values name lo hi raw) _ h in
    let (ups, downs) = Above-part name lo hi raw ws got in
    parts_values_bounds name lo hi raws (update acc ws) vs (Above-update lo acc ws ups a)
      (Below-update hi acc ws downs b) rest

-- The values of a field: ascending without repetition, within the bounds, and not empty.
pub record IsWellFormed (lo hi : ℕ) (f : Field) : Type 0 where
  pub ascending : Above lo f.values
  pub bounded : Below hi f.values
  pub nonempty : f.values ≢ []

finish-values :
    (name : String) (text : Text) (vs : List ℕ) (f : Field)
    → finish name text vs ≡ ok f
    → (f.values ≡ vs) × (vs ≢ [])
unfolding finish
finish-values name text [] f h = cc
finish-values name text (v ∷ vs) f h = (ground arith, λ e. cc)

-- What the parts of a field gave, before `finish`.
pub parse_field-parts :
    (raw : Text) (name : String) (lo hi : ℕ) (sunday_alias : Bool) (f : Field)
    → parse_field raw name lo hi sunday_alias ≡ ok f
    → (vs : List ℕ) × (parts_values name lo hi (split_on b',' (strip raw)) [] ≡ ok vs)
      × (f.values ≡ alias_sunday sunday_alias vs)
      × (f.values ≢ [])
unfolding parse_field
parse_field-parts raw name lo hi sunday_alias f h = read (strip raw) refl
  where
    Parts : Type 0
    Parts =
        (vs : List ℕ) × (parts_values name lo hi (split_on b',' (strip raw)) [] ≡ ok vs)
        × (f.values ≡ alias_sunday sunday_alias vs)
        × (f.values ≢ [])

    parts :
        (t : Text)
        → (do
          values ← parts_values name lo hi (split_on b',' t) []
          finish name t (alias_sunday sunday_alias values))
          ≡ ok f
        → strip raw ≡ t
        → Parts
    parts t e i =
        let (vs, got, rest) = >>=-ok (parts_values name lo hi (split_on b',' t) []) _ e in
        let (same, ne) = finish-values name t (alias_sunday sunday_alias vs) f rest in
        (vs, rw i got, same, λ none_left. ne (sym same ∙ none_left))

    read : (t : Text) → strip raw ≡ t → Parts
    read [] i = absurd (ground arith)
    read (c ∷ t) i = parts (c ∷ t) (ground arith) i

pub parse_field-IsWellFormed :
    (raw : Text) (name : String) (lo hi : ℕ) (f : Field)
    → parse_field raw name lo hi false ≡ ok f
    → IsWellFormed lo hi f
unfolding alias_sunday
parse_field-IsWellFormed raw name lo hi f h =
    let (vs, got, same, ne) = parse_field-parts raw name lo hi false f h in
    let (a, b) = parts_values_bounds name lo hi (split_on b',' (strip raw)) [] vs tt tt got in
    record { ascending = rw same a; bounded = rw same b; nonempty = ne }

alias_sunday_bounds :
    (vs : List ℕ)
    → Above 0 vs
    → Below 7 vs
    → Above 0 (alias_sunday true vs) × Below 6 (alias_sunday true vs)
unfolding alias_sunday
alias_sunday_bounds vs a b = elim (Bool-cases (elem 7 vs)) [
  | inl e ↦ rw e (
    Above-add 0 0 (discard 7 vs) (omega arith) (Above-discard 7 0 vs a),
    Below-add 0 6 (discard 7 vs) (omega arith)
        (Below-tighten 6 (discard 7 vs) (Below-discard 7 7 vs b) (rw elem-discard refl)),
  )
  | inr e ↦ rw e (a, Below-tighten 6 vs b e)
]

-- 7 is folded into 0.
pub parse_weekday-IsWellFormed :
    (raw : Text) (name : String) (f : Field)
    → parse_field raw name 0 7 true ≡ ok f
    → IsWellFormed 0 6 f
parse_weekday-IsWellFormed raw name f h =
    let (vs, got, same, ne) = parse_field-parts raw name 0 7 true f h in
    let (a, b) = parts_values_bounds name 0 7 (split_on b',' (strip raw)) [] vs tt tt got in
    let (a', b') = alias_sunday_bounds vs a b in
    record { ascending = rw same a'; bounded = rw same b'; nonempty = ne }
