-- ===== src/ToolCalls/Unchanged.antt =====
-- The histories that `_drop_orphan_tool_messages` leaves as they are.
use agents_universe.Prelude.{
  suc, ◌+◌, ◌≤◌, ◌≡◌, refl, inl, inr, Bool, true, false, ◌&&◌, some, List, [], ◌∷◌, arith,
}
use agents_universe.Prelude.Text.{Text}
use agents_universe.Prelude.TextSet.{same_iff, elem, discard, elem-insert, elem-discard}
use agents_universe.Prelude.Fallible.{for_each}
use agents_universe.Compressor.Message.{
  Message, system, user, assistant, tool, ToolCall, call, bare, opaque,
}
use agents_universe.ToolCalls.{add_id, request, sweep, pop_dangling, drop_orphan_tool_messages}
use agents_universe.ToolCalls.Paired.{
  calls, requests, answers, IsPaired, ends_dangling, one, Fits, Role-cases, calls-cons,
}

is_named : Text → Bool
is_named [] = false
is_named (c ∷ i) = true

-- Each of the calls is a dict with an id.
unfoldable pub all_named : List ToolCall → Bool
unfolding is_named
all_named [] = true
all_named (call i name arguments ∷ cs) = is_named i && all_named cs
all_named (bare i value ∷ cs) = is_named i && all_named cs
all_named (opaque ∷ cs) = false

-- So are the calls of all assistants.
unfoldable pub requests_named : List Message → Bool
unfolding all_named
requests_named [] = true
requests_named (m ∷ ms) =
    (elim m.role [ assistant ↦ all_named m.tool_calls | system ↦ true | user ↦ true | tool ↦ true ])
    && requests_named ms

-- What a request does, where no id is used twice.
request-named :
    (c : ToolCall) (pending : List Text)
    → all_named (c ∷ []) ≡ true
    → ((i : Text) → one (elem i pending) + calls i (c ∷ []) ≤ 1)
    → (p : List Text) × (request c pending ≡ some p)
      × ((i : Text) → one (elem i p) ≡ one (elem i pending) + calls i (c ∷ []))
unfolding request all_named add_id calls is_named
request-named (call [] name arguments) pending h u = cc
request-named (call (c ∷ j) name arguments) pending h u =
    (_, refl, λ i. ground (arith, elem-insert (c ∷ j) i pending, u i))
request-named (bare [] value) pending h u = cc
request-named (bare (c ∷ j) value) pending h u =
    (_, refl, λ i. ground (arith, elem-insert (c ∷ j) i pending, u i))
request-named opaque pending h u = cc

all_named-cons :
    (c : ToolCall) (cs : List ToolCall) → all_named (c ∷ cs) ≡ (all_named (c ∷ []) && all_named cs)
unfolding all_named
all_named-cons (call i name arguments) cs = ground arith
all_named-cons (bare i value) cs = ground arith
all_named-cons opaque cs = refl

requested_named :
    (cs : List ToolCall) (pending : List Text)
    → all_named cs ≡ true
    → ((i : Text) → one (elem i pending) + calls i cs ≤ 1)
    → (p : List Text) × (for_each request cs pending ≡ some p)
      × ((i : Text) → one (elem i p) ≡ one (elem i pending) + calls i cs)
unfolding for_each calls
requested_named [] pending h u = (pending, refl, λ i. omega arith)
requested_named (c ∷ cs) pending h u =
    let (q, e, f) =
      request-named c pending (ground (arith, all_named-cons c cs))
        (λ i. omega (arith, u i, calls-cons i c cs)) in
    let (p, e', f') =
      requested_named cs q (ground (arith, all_named-cons c cs))
        (λ i. omega (arith, u i, calls-cons i c cs, f i)) in
    (p, rw (e, e') refl, λ i. omega (arith, f i, f' i, calls-cons i c cs))

sweep_unchanged :
    (ms : List Message) (pending : List Text)
    → requests_named ms ≡ true
    → ((i : Text) → one (elem i pending) + requests i ms ≤ 1)
    → Fits pending ms
    → sweep pending ms ≡ some ms
unfolding sweep requests answers requests_named
sweep_unchanged [] pending h u f = refl
sweep_unchanged (m ∷ ms) pending h u f = elim (Role-cases m.role) [
  | inl r ↦
      let (p, asked, e) =
        requested_named m.tool_calls pending (ground (arith, r)) (λ i. ground (arith, u i, r)) in
      let rest =
        sweep_unchanged ms p (ground (arith, r)) (λ i. ground (arith, u i, e i, r))
          (λ n i. ground (arith, f (suc n) i, e i, r)) in
      simp (r, asked, rest, sweep)
  | inr (inl r) ↦
      let known : elem m.tool_call_id pending ≡ true =
        ground (arith, f 1 m.tool_call_id, same_iff m.tool_call_id m.tool_call_id, r) in
      let left = λ (i : Text). elem-discard m.tool_call_id i pending in
      let rest =
        sweep_unchanged ms (discard m.tool_call_id pending) (ground (arith, r))
          (λ i. ground (arith, u i, left i, r))
          (λ n i. ground (arith, f (suc n) i, left i, same_iff m.tool_call_id i, r)) in
      simp (r, known, rest, sweep)
  | inr (inr (inl r)) ↦
      let rest =
        sweep_unchanged ms pending (ground (arith, r)) (λ i. ground (arith, u i, r))
          (λ n i. ground (arith, f (suc n) i, r)) in
      simp (r, rest, sweep)
  | inr (inr (inr r)) ↦
      let rest =
        sweep_unchanged ms pending (ground (arith, r)) (λ i. ground (arith, u i, r))
          (λ n i. ground (arith, f (suc n) i, r)) in
      simp (r, rest, sweep)
]

pop_dangling_unchanged : (ms : List Message) → ends_dangling ms ≡ false → pop_dangling ms ≡ ms
unfolding pop_dangling ends_dangling
pop_dangling_unchanged [] e = refl
pop_dangling_unchanged (m ∷ []) e = rw e refl
pop_dangling_unchanged (m ∷ n ∷ ms) e = rw (pop_dangling_unchanged (n ∷ ms) e) refl

-- A history is returned as it is where each requested call is a dict with an id, no id is requested
-- twice, at no point has an id more answers than requests, and the last message does not request
-- tool calls.
pub drop_orphan_unchanged :
    (ms : List Message)
    → requests_named ms ≡ true
    → ((i : Text) → requests i ms ≤ 1)
    → IsPaired ms
    → ends_dangling ms ≡ false
    → drop_orphan_tool_messages ms ≡ some ms
unfolding drop_orphan_tool_messages elem
drop_orphan_unchanged ms named once paired ends =
    let swept =
      sweep_unchanged ms [] named (λ i. ground (arith, once i))
        (λ n i. ground (arith, paired n i)) in
    rw (swept, pop_dangling_unchanged ms ends) refl
