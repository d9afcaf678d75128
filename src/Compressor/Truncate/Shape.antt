-- ===== src/Compressor/Truncate/Shape.antt =====
-- What truncation leaves alone, and what the byte guard returns.
use agents_universe.Prelude.{
  Pointwise, ℕ, ◌≤◌, ◌<◌, ◌≡◌, refl, ap, ◌≢◌, ◌⊎◌, inl, inr, true, Option, List, [], ◌∷◌, ◌++◌,
  arith, leb, take, Bool-cases, leb→le, ◌↔◌,
}
use agents_universe.Prelude.Text.{Text}
use agents_universe.Compressor.Message.{
  Role, system, user, assistant, tool, Content, plain, Message, ToolDefinition, content_as_str,
}
use agents_universe.Compressor.Estimate.{estimate_tokens, estimate_request_bytes, is_cjk}
use agents_universe.Compressor.Estimate.Words.{IsWord, estimate_word_cjk}
use agents_universe.Compressor.Truncate.{
  truncate_message, by_role, shortened, truncate_text, truncate_oversized_tool_messages,
  tool_budget, cutoff, marker, Status, unchanged, over_limit, force_compress_history,
}
use agents_universe.Compressor.Truncate.Search.{IsCut, cutoff-IsCut}

-- A message after truncation: the same but for the content, which changes in an oversized tool
-- message only, and there to a cut prefix with the marker behind it.
pub record Truncates (m m' : Message) : Type 0 where
  pub role : m'.role ≡ m.role
  pub tool_calls : m'.tool_calls ≡ m.tool_calls
  pub tool_call_id : m'.tool_call_id ≡ m.tool_call_id
  pub name : m'.name ≡ m.name
  pub content :
      ((m'.content ≡ m.content)
        × (m.role ≡ tool → estimate_tokens (content_as_str m.content) ≤ tool_budget))
      ⊎ ((m.role ≡ tool)
          × (n : ℕ) × IsCut (content_as_str m.content) n
          × (m'.content ≡ plain (take n (content_as_str m.content) ++ marker)))

kept :
    (m : Message)
    → (m.role ≡ tool → estimate_tokens (content_as_str m.content) ≤ tool_budget)
    → Truncates m m
kept m small = record {
  role = refl;
  tool_calls = refl;
  tool_call_id = refl;
  name = refl;
  content = inl (refl, small);
}

shortened-Truncates : (m : Message) → m.role ≡ tool → Truncates m (shortened m).0
unfolding shortened truncate_text
shortened-Truncates m r =
    elim (Bool-cases (leb (estimate_tokens (content_as_str m.content)) tool_budget)) [
      | inl small ↦ rw small (kept m (λ _. leb→le _ _ small))
      | inr big ↦ rw big (record {
        role = refl;
        tool_calls = refl;
        tool_call_id = refl;
        name = refl;
        content = inr (r, cutoff (content_as_str m.content), cutoff-IsCut _ (ground arith), refl);
      })
    ]

by_role-Truncates : (r : Role) (m : Message) → m.role ≡ r → Truncates m (by_role r m).0
unfolding by_role
by_role-Truncates tool m e = shortened-Truncates m e
by_role-Truncates system m e = kept m (λ t. cc)
by_role-Truncates user m e = kept m (λ t. cc)
by_role-Truncates assistant m e = kept m (λ t. cc)

-- Truncation keeps the number, the order, the roles and the ids of the messages, and changes only
-- the content of oversized tool messages, to a prefix cut at the budget with the marker behind it.
pub truncate-Truncates :
    (ms : List Message) → Pointwise Truncates ms (truncate_oversized_tool_messages ms).0
unfolding truncate_oversized_tool_messages truncate_message
truncate-Truncates [] = tt
truncate-Truncates (m ∷ ms) = (by_role-Truncates m.role m refl, truncate-Truncates ms)

by_role-small :
    (r : Role) (m : Message)
    → estimate_tokens (content_as_str m.content) ≤ tool_budget
    → by_role r m ≡ (m, 0)
unfolding by_role shortened
by_role-small tool m h = ground arith
by_role-small system m h = refl
by_role-small user m h = refl
by_role-small assistant m h = refl

-- A tool result that is one unbroken ASCII word with a character of the CJK class behind it is
-- never truncated, whatever its length.
pub truncate_word_cjk :
    (m : Message) (a c : ℕ) (t : Text)
    → IsWord (a ∷ t)
    → 127 < c
    → is_cjk c ≡ true
    → m.content ≡ plain ((a ∷ t) ++ c ∷ [])
    → truncate_message m ≡ (m, 0)
unfolding truncate_message content_as_str
truncate_word_cjk m a c t w h wide e = by_role-small m.role m (
    omega (
      arith,
      ap (λ (x : Content). estimate_tokens (content_as_str x)) e,
      (estimate_word_cjk a c t w h wide).1,
    ))

module _ (escaped : ℕ → ℕ) (ms : List Message) (limit : ℕ) (tools : List ToolDefinition)
    (bytes : Option ℕ) where
  abbrev guarded : Status × List Message
  guarded = force_compress_history escaped ms limit tools bytes

  -- The guard reports `over_limit` exactly when the messages that it leaves are over the limit;
  -- it leaves either the given messages or the truncated ones, the given ones if it says `ok`.
  force_compress_limit :
      ((guarded.0 ≢ over_limit) ↔ (estimate_request_bytes escaped guarded.1 tools bytes ≤ limit))
      × ((guarded.1 ≡ ms) ⊎ (guarded.1 ≡ (truncate_oversized_tool_messages ms).0))
      × (guarded.0 ≡ unchanged → guarded.1 ≡ ms)
  unfolding force_compress_history
  force_compress_limit = ground arith
