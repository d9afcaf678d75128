-- ===== src/ToolCalls/Paired.antt =====
-- Requests and answers of tool calls: what a repaired history promises to the provider.
use agents_universe.Prelude.{
  ℕ, zero, suc, ◌+◌, ◌≤◌, ◌≡◌, refl, ◌⊎◌, inl, inr, Bool, true, false, Option, some, List, [], ◌∷◌,
  if◌then◌else◌, take, arith, Bool-cases, Option-cases,
}
use agents_universe.Prelude.Text.{Text}
use agents_universe.Prelude.TextSet.{same, same_iff, elem, discard, elem-insert, elem-discard}
use agents_universe.Prelude.Fallible.{◌>>=◌, for_each, bind-some}
use agents_universe.Compressor.Message.{
  Message, Role, system, user, assistant, tool, ToolCall, call, bare, opaque,
}
use agents_universe.ToolCalls.{add_id, request, sweep, is_dangling}

-- How many of the calls have the id.
unfoldable pub calls : Text → List ToolCall → ℕ
calls i [] = 0
calls i (call j name arguments ∷ cs) = (if same j i then 1 else 0) + calls i cs
calls i (bare j value ∷ cs) = (if same j i then 1 else 0) + calls i cs
calls i (opaque ∷ cs) = calls i cs

-- How often assistants request a call of the id, and how often tools answer one.
unfoldable pub requests : Text → List Message → ℕ
unfolding calls
requests i [] = 0
requests i (m ∷ ms) =
    (elim m.role [ assistant ↦ calls i m.tool_calls | system ↦ 0 | user ↦ 0 | tool ↦ 0 ])
    + requests i ms

unfoldable pub answers : Text → List Message → ℕ
answers i [] = 0
answers i (m ∷ ms) =
    (elim m.role [
      | tool ↦ if same m.tool_call_id i then 1 else 0
      | system ↦ 0
      | user ↦ 0
      | assistant ↦ 0
    ])
    + answers i ms

-- At no point of the history has an id more answers than requests.
abbrev pub IsPaired : List Message → Type 0
IsPaired ms = (n : ℕ) (i : Text) → answers i (take n ms) ≤ requests i (take n ms)

unfoldable pub ends_dangling : List Message → Bool
unfolding is_dangling
ends_dangling [] = false
ends_dangling (m ∷ []) = is_dangling m
ends_dangling (m ∷ n ∷ ms) = ends_dangling (n ∷ ms)

abbrev pub one : Bool → ℕ
one true = 1
one false = 0

request-one :
    (c : ToolCall) (pending requested : List Text) (i : Text)
    → request c pending ≡ some requested
    → one (elem i requested) ≤ one (elem i pending) + calls i (c ∷ [])
unfolding request calls add_id
request-one (call [] name arguments) pending requested i e = ground arith
request-one (call (c ∷ j) name arguments) pending requested i e =
    ground (arith, elem-insert (c ∷ j) i pending)
request-one (bare [] value) pending requested i e = ground arith
request-one (bare (c ∷ j) value) pending requested i e =
    ground (arith, elem-insert (c ∷ j) i pending)
request-one opaque pending requested i e = ground arith

pub calls-cons :
    (i : Text) (c : ToolCall) (cs : List ToolCall)
    → calls i (c ∷ cs) ≡ calls i (c ∷ []) + calls i cs
unfolding calls
calls-cons i (call j name arguments) cs = omega arith
calls-cons i (bare j value) cs = omega arith
calls-cons i opaque cs = omega arith

requested_one :
    (cs : List ToolCall) (pending requested : List Text) (i : Text)
    → for_each request cs pending ≡ some requested
    → one (elem i requested) ≤ one (elem i pending) + calls i cs
unfolding for_each
requested_one [] pending requested i e = ground arith
requested_one (c ∷ cs) pending requested i e = elim (Option-cases (request c pending)) [
  | inl raises ↦ absurd (ground arith)
  | inr (p, f) ↦
      ground (arith, request-one c pending p i f, requested_one cs p requested i, calls-cons i c cs)
]

pub Role-cases : (r : Role) → (r ≡ assistant) ⊎ ((r ≡ tool) ⊎ ((r ≡ system) ⊎ (r ≡ user)))
Role-cases assistant = inl refl
Role-cases tool = inr (inl refl)
Role-cases system = inr (inr (inl refl))
Role-cases user = inr (inr (inr refl))

-- The counts of what follows a message fit, so those with it fit.
abbrev pub Fits : List Text → List Message → Type 0
Fits pending ms =
    (n : ℕ) (i : Text) → answers i (take n ms) ≤ one (elem i pending) + requests i (take n ms)

Fits-cons :
    (m : Message) (ms : List Message) (pending after : List Text)
    → ((i : Text)
        → one (elem i after) + answers i (m ∷ []) ≤ one (elem i pending) + requests i (m ∷ []))
    → Fits after ms
    → Fits pending (m ∷ ms)
unfolding answers requests
Fits-cons m ms pending after f g zero i = omega arith
Fits-cons m ms pending after f g (suc n) i = omega (arith, f i, g n i)

Fits-nil : (pending : List Text) → Fits pending []
unfolding answers requests
Fits-nil pending zero i = omega arith
Fits-nil pending (suc n) i = omega arith

kept-Fits :
    (m : Message) (pending after : List Text) (o : Option (List Message)) (out : List Message)
    → (do rest ← o; some (m ∷ rest)) ≡ some out
    → ((i : Text)
        → one (elem i after) + answers i (m ∷ []) ≤ one (elem i pending) + requests i (m ∷ []))
    → ((rest : List Message) → o ≡ some rest → Fits after rest)
    → Fits pending out
kept-Fits m pending after o out e f g =
    let (rest, s, e') = bind-some o (λ rest. some (m ∷ rest)) out e in
    let front : m ∷ rest ≡ out = ground arith in
    rw (← front) (Fits-cons m rest pending after f (g rest s))

pub sweep-Fits :
    (ms out : List Message) (pending : List Text) → sweep pending ms ≡ some out → Fits pending out
unfolding sweep answers requests
sweep-Fits [] out pending e = let empty : [] ≡ out = ground arith in rw (← empty) (Fits-nil pending)
sweep-Fits (m ∷ ms) out pending e = elim (Role-cases m.role) [
  | inl r ↦
      let (p, asked, e') =
        bind-some (for_each request m.tool_calls pending) _ out (rw (r, sweep) at e) in
      kept-Fits m pending p (sweep p ms) out e'
        (λ i. ground (arith, requested_one m.tool_calls pending p i asked, r))
        (λ rest s. sweep-Fits ms rest p s)
  | inr (inl r) ↦ elim (Bool-cases (elem m.tool_call_id pending)) [
    | inl known ↦
        kept-Fits m pending (discard m.tool_call_id pending)
          (sweep (discard m.tool_call_id pending) ms) out (rw (r, known, sweep) at e)
          (λ i. ground (arith, elem-discard m.tool_call_id i pending, same_iff m.tool_call_id i, r))
          (λ rest s. sweep-Fits ms rest (discard m.tool_call_id pending) s)
    | inr unknown ↦ sweep-Fits ms out pending (rw (r, unknown, sweep) at e)
  ]
  | inr (inr (inl r)) ↦
      kept-Fits m pending pending (sweep pending ms) out (rw (r, sweep) at e)
        (λ i. ground (arith, r)) (λ rest s. sweep-Fits ms rest pending s)
  | inr (inr (inr r)) ↦
      kept-Fits m pending pending (sweep pending ms) out (rw (r, sweep) at e)
        (λ i. ground (arith, r)) (λ rest s. sweep-Fits ms rest pending s)
]
