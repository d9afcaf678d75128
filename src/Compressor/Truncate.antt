-- ===== src/Compressor/Truncate.antt =====
-- `truncate_oversized_tool_messages` and `force_compress_history` of compressor.py. The lists are
-- mutated in place there; here each call returns the messages as it leaves them.
pub mod Search
pub mod Shape
use agents_universe.Prelude.{
  ℕ, zero, suc, ◌+◌, ◌-◌, ◌/◌, Option, List, [], ◌∷◌, ◌++◌, ltb, leb, if◌then◌else◌, length, take,
}
use agents_universe.Prelude.Text.{Text, codes}
use agents_universe.Compressor.Message.{
  Role, system, user, assistant, tool, Content, plain, Message, ToolDefinition, content_as_str,
}
use agents_universe.Compressor.Estimate.{estimate_tokens, estimate_request_bytes}

abbrev pub tool_budget : ℕ
tool_budget = 2000

-- `while lo < hi`, with fuel.
pub search : ℕ → Text → ℕ → ℕ → ℕ
search zero content lo hi = lo
search (suc fuel) content lo hi =
    let mid = (lo + hi + 1) / 2 in
    let up = search fuel content mid hi in
    let down = search fuel content lo (mid - 1) in
    let halve = if leb (estimate_tokens (take mid content)) tool_budget then up else down in
    if ltb lo hi then halve else lo

-- Each round leaves less between the bounds, so their distance is fuel enough.
pub cutoff : Text → ℕ
unfolding search
cutoff content = search (suc (length content)) content 0 (length content)

abbrev pub marker : Text
marker = codes "\n[... truncated ...]"

pub truncate_text : Text → Text
truncate_text content = take (cutoff content) content ++ marker

-- One round of the loop: the message, and what it adds to the count.
shortened : Message → Message × ℕ
unfolding truncate_text
shortened m =
    let content = content_as_str m.content in
    if leb (estimate_tokens content) tool_budget
    then (m, 0)
    else (record m { content = plain (truncate_text content) }, 1)

by_role : Role → Message → Message × ℕ
unfolding shortened
by_role tool m = shortened m
by_role system m = (m, 0)
by_role user m = (m, 0)
by_role assistant m = (m, 0)

pub truncate_message : Message → Message × ℕ
unfolding by_role
truncate_message m = by_role m.role m

pub truncate_oversized_tool_messages : List Message → List Message × ℕ
truncate_oversized_tool_messages [] = ([], 0)
truncate_oversized_tool_messages (m ∷ ms) =
    let (m', n) = truncate_message m in
    let (ms', k) = truncate_oversized_tool_messages ms in (m' ∷ ms', n + k)

pub data Status : Type 0 where
  unchanged truncated over_limit : Status

module _ (escaped : ℕ → ℕ) where
  unfoldable pub force_compress_history :
      List Message → ℕ → List ToolDefinition → Option ℕ → Status × List Message
  force_compress_history ms limit tools tool_bytes =
      let (short, _) = truncate_oversized_tool_messages ms in
      if leb (estimate_request_bytes escaped ms tools tool_bytes) limit
      then (unchanged, ms)
      else if leb (estimate_request_bytes escaped short tools tool_bytes) limit
      then (truncated, short)
      else (over_limit, short)
