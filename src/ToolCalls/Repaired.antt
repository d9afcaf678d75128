-- ===== src/ToolCalls/Repaired.antt =====
-- What `_drop_orphan_tool_messages` returns.
use agents_universe.Prelude.{
  ℕ, zero, suc, ◌≡◌, refl, sym, ap, ◌∙◌, inl, inr, Bool, true, false, ◌&&◌, some, List, [], ◌∷◌,
  take, arith, Bool-cases, List-cases,
}
use agents_universe.Prelude.Text.{Text}
use agents_universe.Prelude.TextSet.{elem, discard}
use agents_universe.Prelude.Fallible.{for_each, bind-some, some_inj}
use agents_universe.Compressor.Message.{
  Message, system, user, assistant, tool, ToolCall, call, bare, opaque,
}
use agents_universe.ToolCalls.{request, sweep, is_dangling, pop_dangling, drop_orphan_tool_messages}
use agents_universe.ToolCalls.Paired.{IsPaired, ends_dangling, Role-cases, sweep-Fits}

take-take : {A : Type 0} (n k : ℕ) (xs : List A) → (j : ℕ) × (take n (take k xs) ≡ take j xs)
take-take zero k xs = (0, refl)
take-take (suc n) zero xs = (0, refl)
take-take (suc n) (suc k) [] = (0, refl)
take-take (suc n) (suc k) (x ∷ xs) = let (j, e) = take-take n k xs in (suc j, ap (◌∷◌ x) e)

-- Messages are only popped from the end.
pop_dangling-take : (ms : List Message) → (k : ℕ) × (pop_dangling ms ≡ take k ms)
unfolding pop_dangling
pop_dangling-take [] = (0, refl)
pop_dangling-take (m ∷ ms) =
    let (k, e) = pop_dangling-take ms in
    elim (List-cases (pop_dangling ms)) [
      | inr (n, ns, f) ↦ (suc k, rw f (ap (◌∷◌ m) (sym f ∙ e)))
      | inl f ↦ elim (Bool-cases (is_dangling m)) [
        | inl d ↦ (0, rw (f, d) refl)
        | inr d ↦ (1, rw (f, d) refl)
      ]
    ]

pop_dangling_ends : (ms : List Message) → ends_dangling (pop_dangling ms) ≡ false
unfolding pop_dangling ends_dangling
pop_dangling_ends [] = refl
pop_dangling_ends (m ∷ ms) = elim (List-cases (pop_dangling ms)) [
  | inr (n, ns, f) ↦
      let ends : ends_dangling (n ∷ ns) ≡ false = rw f at (pop_dangling_ends ms) in rw f ends
  | inl f ↦ elim (Bool-cases (is_dangling m)) [
    | inl d ↦ rw (f, d) refl
    | inr d ↦ rw (f, d) (ground (arith, d))
  ]
]

is_dict : ToolCall → Bool
is_dict (call i name arguments) = true
is_dict (bare i value) = true
is_dict opaque = false

dicts : List ToolCall → Bool
unfolding is_dict
dicts [] = true
dicts (c ∷ cs) = is_dict c && dicts cs

-- Each tool call that an assistant requests is a dict.
unfoldable pub requests_dicts : List Message → Bool
unfolding dicts
requests_dicts [] = true
requests_dicts (m ∷ ms) =
    (elim m.role [ assistant ↦ dicts m.tool_calls | system ↦ true | user ↦ true | tool ↦ true ])
    && requests_dicts ms

request_returns :
    (c : ToolCall) (pending : List Text)
    → is_dict c ≡ true
    → (p : List Text) × (request c pending ≡ some p)
unfolding request is_dict
request_returns (call i name arguments) pending h = (_, refl)
request_returns (bare i value) pending h = (_, refl)
request_returns opaque pending h = cc

requests_return :
    (cs : List ToolCall) (pending : List Text)
    → dicts cs ≡ true
    → (p : List Text) × (for_each request cs pending ≡ some p)
unfolding for_each dicts
requests_return [] pending h = (pending, refl)
requests_return (c ∷ cs) pending h =
    let (q, e) = request_returns c pending (ground arith) in
    let (p, e') = requests_return cs q (ground arith) in (p, rw (e, e') refl)

sweep_returns :
    (ms : List Message) (pending : List Text)
    → requests_dicts ms ≡ true
    → (out : List Message) × (sweep pending ms ≡ some out)
unfolding sweep requests_dicts
sweep_returns [] pending h = ([], refl)
sweep_returns (m ∷ ms) pending h = elim (Role-cases m.role) [
  | inl r ↦
      let (p, e) = requests_return m.tool_calls pending (ground (arith, r)) in
      let (rest, e') = sweep_returns ms p (ground (arith, r)) in (m ∷ rest, simp (r, e, e', sweep))
  | inr (inl r) ↦
      let (rest, e) = sweep_returns ms (discard m.tool_call_id pending) (ground (arith, r)) in
      let (others, e') = sweep_returns ms pending (ground (arith, r)) in
      elim (Bool-cases (elem m.tool_call_id pending)) [
        | inl known ↦ (m ∷ rest, simp (r, known, e, sweep))
        | inr unknown ↦ (others, simp (r, unknown, e', sweep))
      ]
  | inr (inr (inl r)) ↦
      let (rest, e) = sweep_returns ms pending (ground (arith, r)) in (m ∷ rest, simp (r, e, sweep))
  | inr (inr (inr r)) ↦
      let (rest, e) = sweep_returns ms pending (ground (arith, r)) in (m ∷ rest, simp (r, e, sweep))
]

pub returned-IsPaired :
    (ms out : List Message)
    → drop_orphan_tool_messages ms ≡ some out
    → IsPaired out × (ends_dangling out ≡ false)
unfolding drop_orphan_tool_messages elem
returned-IsPaired ms out e =
    let (cleaned, swept, e') =
      bind-some (sweep [] ms) (λ cleaned. some (pop_dangling cleaned)) out e in
    let (k, front) = pop_dangling-take cleaned in
    (
      (λ n i.
          let (j, e'') = take-take n k cleaned in
          rw (← some_inj e', front, e'') (ground (arith, sweep-Fits ms cleaned [] swept j i))),
      rw (← some_inj e') (pop_dangling_ends cleaned),
    )

-- A history whose requested tool calls are dicts is repaired, without an exception. In what the
-- repair returns no tool message answers a call that was not requested before it, nor one that is
-- already answered: at no point has an id more answers than requests. And its last message does not
-- request tool calls.
pub drop_orphan-IsPaired :
    (ms : List Message)
    → requests_dicts ms ≡ true
    → (out : List Message) × (drop_orphan_tool_messages ms ≡ some out)
      × IsPaired out
      × (ends_dangling out ≡ false)
unfolding drop_orphan_tool_messages
drop_orphan-IsPaired ms h =
    let (cleaned, swept) = sweep_returns ms [] h in
    let returns : drop_orphan_tool_messages ms ≡ some (pop_dangling cleaned) = rw swept refl in
    let (paired, ends) = returned-IsPaired ms (pop_dangling cleaned) returns in
    (pop_dangling cleaned, returns, paired, ends)
