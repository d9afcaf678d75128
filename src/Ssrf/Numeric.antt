-- ===== src/Ssrf/Numeric.antt =====
-- `_inet_aton_mapped`, against the forms that the manual page of inet_aton lists.
use agents_universe.Prelude.{
  ℕ, suc, ◌+◌, ◌*◌, ◌≤◌, ◌<◌, ◌≡◌, ◌↔◌, refl, ap, true, false, ◌||◌, not, Option, some, List, [],
  ◌∷◌, ltb, length, arith, Bool-cases, inl, inr,
}
use agents_universe.Prelude.Text.{Text, codes, split_on, starts_with, ends_with, contains}
use agents_universe.Prelude.Fallible.{each, bind-some, some_inj}
use agents_universe.Ssrf.{is_numeric_host, component, bytes, join_from, inet_aton}

-- One number for the whole address; a byte and 24 bits; two bytes and 16 bits; or four bytes.
abbrev pub IsForm : List ℕ → ℕ → Type 0
IsForm [] n = ⊥
IsForm (a ∷ []) n = (a < 4_294_967_296) × (n ≡ a)
IsForm (a ∷ b ∷ []) n = (a < 256) × (b < 16_777_216) × (n ≡ a * 16_777_216 + b)
IsForm (a ∷ b ∷ c ∷ []) n =
    (a < 256) × (b < 256) × (c < 65_536) × (n ≡ a * 16_777_216 + b * 65_536 + c)
IsForm (a ∷ b ∷ c ∷ d ∷ []) n =
    (a < 256) × (b < 256) × (c < 256) × (d < 256) × (n ≡ a * 16_777_216 + b * 65_536 + c * 256 + d)
IsForm (a ∷ b ∷ c ∷ d ∷ e ∷ rest) n = ⊥

IsForm-lt : (values : List ℕ) (n : ℕ) → IsForm values n → n < 4_294_967_296
IsForm-lt [] n f = absurd f
IsForm-lt (a ∷ []) n f = omega arith
IsForm-lt (a ∷ b ∷ []) n f = omega arith
IsForm-lt (a ∷ b ∷ c ∷ []) n f = omega arith
IsForm-lt (a ∷ b ∷ c ∷ d ∷ []) n f = omega arith
IsForm-lt (a ∷ b ∷ c ∷ d ∷ e ∷ rest) n f = absurd f

join-IsForm :
    (values : List ℕ) (n : ℕ) → length values ≤ 4 → join_from 0 4 values ≡ some n → IsForm values n
unfolding join_from bytes
join-IsForm [] n h e = absurd (ground arith)
join-IsForm (a ∷ []) n h e = ground arith
join-IsForm (a ∷ b ∷ []) n h e = ground arith
join-IsForm (a ∷ b ∷ c ∷ []) n h e = ground arith
join-IsForm (a ∷ b ∷ c ∷ d ∷ []) n h e = ground arith
join-IsForm (a ∷ b ∷ c ∷ d ∷ x ∷ rest) n h e = absurd (omega arith)

IsForm-join : (values : List ℕ) (n : ℕ) → IsForm values n → join_from 0 4 values ≡ some n
unfolding join_from bytes
IsForm-join [] n f = absurd f
IsForm-join (a ∷ []) n f = ground arith
IsForm-join (a ∷ b ∷ []) n f = ground arith
IsForm-join (a ∷ b ∷ c ∷ []) n f = ground arith
IsForm-join (a ∷ b ∷ c ∷ d ∷ []) n f = ground arith
IsForm-join (a ∷ b ∷ c ∷ d ∷ e ∷ rest) n f = absurd f

IsForm-length : (values : List ℕ) (n : ℕ) → IsForm values n → length values ≤ 4
IsForm-length [] n f = absurd f
IsForm-length (a ∷ []) n f = omega arith
IsForm-length (a ∷ b ∷ []) n f = omega arith
IsForm-length (a ∷ b ∷ c ∷ []) n f = omega arith
IsForm-length (a ∷ b ∷ c ∷ d ∷ []) n f = omega arith
IsForm-length (a ∷ b ∷ c ∷ d ∷ e ∷ rest) n f = absurd f

ltb-le : (a b : ℕ) → ltb a b ≡ false → b ≤ a
ltb-le a b h = ground arith

length-each :
    (f : Text → Option ℕ) (parts : List Text) (values : List ℕ)
    → each f parts ≡ some values
    → length values ≡ length parts
unfolding each
length-each f [] values e = rw (← some_inj e) refl
length-each f (p ∷ parts) values e =
    let (v, e₁, rest) = bind-some (f p) _ values e in
    let (vs, e₂, e₃) = bind-some (each f parts) _ values rest in
    rw (← some_inj e₃) (ap suc (length-each f parts vs e₂))

-- The host is short, has digits, letters to `f`, `x` and single dots inside, and its parts are the
-- numbers of a form.
pub record IsAton (host : Text) (n : ℕ) : Type 0 where
  pub short : ltb 64 (length host) ≡ false
  pub numeric : is_numeric_host host ≡ true
  pub starts : starts_with (b'.' ∷ []) host ≡ false
  pub ends : ends_with (b'.' ∷ []) host ≡ false
  pub single : contains host (codes "..") ≡ false
  pub values : List ℕ
  pub parsed : each component (split_on b'.' host) ≡ some values
  pub form : IsForm values n

from_IsAton : (host : Text) (n : ℕ) → inet_aton host ≡ some n → IsAton host n
unfolding inet_aton
from_IsAton host n e = elim (Bool-cases (ltb 64 (length host) || not (is_numeric_host host))) [
  | inl odd ↦ absurd (ground arith)
  | inr plain ↦
      elim (Bool-cases (
        starts_with (b'.' ∷ []) host
        || (ends_with (b'.' ∷ []) host || contains host (codes "..")))) [
          | inl dotted ↦ absurd (ground arith)
          | inr tidy ↦ elim (Bool-cases (ltb 4 (length (split_on b'.' host)))) [
            | inl many ↦ absurd (ground arith)
            | inr few ↦
                let (values, parsed, joined) =
                  bind-some (each component (split_on b'.' host)) (join_from 0 4) n
                    (rw (plain, tidy, few, inet_aton) at e) in
                record {
                  short = ground arith;
                  numeric = ground arith;
                  starts = ground arith;
                  ends = ground arith;
                  single = ground arith;
                  values = values;
                  parsed = parsed;
                  form =
                      join-IsForm values n
                        (omega (
                          arith,
                          length-each component (split_on b'.' host) values parsed,
                          ltb-le 4 (length (split_on b'.' host)) few,
                        ))
                        joined;
                }
          ]
        ]
]

pub to_aton : (host : Text) (n : ℕ) → IsAton host n → inet_aton host ≡ some n
unfolding inet_aton
to_aton host n a =
    let few : ltb 4 (length (split_on b'.' host)) ≡ false = ground (
      arith,
      length-each component (split_on b'.' host) a.values a.parsed,
      IsForm-length a.values n a.form,
    ) in
    rw (a.short, a.numeric, a.starts, a.ends, a.single, few, a.parsed, inet_aton)
      (IsForm-join a.values n a.form)

-- The guard reads a host as an address exactly where the host is at most 64 characters long, has only
-- the characters of numbers, with single dots inside, and the numbers of its parts are one of the four
-- forms of inet_aton; and then as the number that the form stands for, which has 32 bits.
pub inet_aton_iff :
    (host : Text) (n : ℕ) → (inet_aton host ≡ some n) ↔ (IsAton host n × (n < 4_294_967_296))
inet_aton_iff host n = (
  (λ e. let a = from_IsAton host n e in (a, IsForm-lt a.values n a.form)),
  (λ p. to_aton host n p.0),
)
