-- ===== src/Compressor/Estimate.antt =====
-- The estimates of compressor.py. `int(n * 1.3)` and `int(n * 0.6)` are `n * 13 / 10` and
-- `n * 6 / 10`, which is what the floating-point products give for every text that fits in memory;
-- `int(n * _ESCAPE_FACTOR)`, which rounds, is the parameter `escaped`.
pub mod Sections
pub mod Words
use Prim.Native.Nat.{max}
use agents_universe.Prelude.{
  ℕ, suc, ◌+◌, ◌-◌, ◌*◌, ◌/◌, Bool, true, false, ◌&&◌, ◌||◌, not, Option, none, some, List, [], ◌∷◌,
  leb, if◌then◌else◌, length, keep, total,
}
use agents_universe.Prelude.Text.{Text, isascii, split}
use agents_universe.Compressor.Message.{
  Role, system, Part, text, image, other, Content, missing, plain, parts, ToolCall, call, bare,
  opaque, Message, ToolDefinition, content_as_str,
}

-- The character class of `_CJK_RE`.
unfoldable pub is_cjk : ℕ → Bool
is_cjk c =
    (leb 0x4e00 c && leb c 0x9fff)
    || ((leb 0x3040 c && leb c 0x309f)
        || ((leb 0x30a0 c && leb c 0x30ff)
            || ((leb 0xac00 c && leb c 0xd7a3)
                || ((leb 0x3400 c && leb c 0x4dbf) || (leb 0x3000 c && leb c 0x303f)))))

unfoldable pub not_cjk : ℕ → Bool
not_cjk c = not (is_cjk c)

-- `_estimate_tokens`, and `_estimate_tokens_safe`, which differs in what it caches only.
unfoldable pub estimate_tokens : Text → ℕ
estimate_tokens t =
    if isascii t
    then max (length (split t) * 13 / 10) (length t / 4)
    else length (keep is_cjk t) * 6 / 10 + length (split (keep not_cjk t)) * 13 / 10

module _ (escaped : ℕ → ℕ) where
  unfoldable pub estimate_wire_bytes : Text → ℕ
  estimate_wire_bytes t =
      let cjk = length (keep is_cjk t) in
      if isascii t then escaped (length t) else escaped (cjk * 6 + (length t - cjk))

  call_bytes : ToolCall → ℕ
  call_bytes opaque = 64
  call_bytes (call id name arguments) =
      32 + (estimate_wire_bytes id + (estimate_wire_bytes name + estimate_wire_bytes arguments))
  call_bytes (bare id fn) = 32 + (estimate_wire_bytes id + estimate_wire_bytes fn)

  calls_bytes : List ToolCall → ℕ
  calls_bytes [] = 0
  calls_bytes (c ∷ cs) = call_bytes c + calls_bytes cs

  pub tool_calls_wire_bytes : List ToolCall → ℕ
  unfolding call_bytes calls_bytes
  tool_calls_wire_bytes cs = 32 + calls_bytes cs

  -- `if m.tool_calls: ...`
  unfoldable pub tool_calls_bytes : List ToolCall → ℕ
  unfolding tool_calls_wire_bytes
  tool_calls_bytes [] = 0
  tool_calls_bytes (c ∷ cs) = tool_calls_wire_bytes (c ∷ cs)

  pub message_tokens : Message → ℕ
  message_tokens m = estimate_tokens (content_as_str m.content) + tool_calls_bytes m.tool_calls / 4

  pub estimate_history_tokens : List Message → ℕ
  unfolding message_tokens
  estimate_history_tokens [] = 0
  estimate_history_tokens (m ∷ ms) = message_tokens m + estimate_history_tokens ms

  unfoldable pub image_bytes : Text → ℕ
  image_bytes content = 24 + length content

  pub part_bytes : Part → ℕ
  unfolding image_bytes
  part_bytes (text t) = estimate_wire_bytes t
  part_bytes (image media content) = image_bytes content
  part_bytes (other t) = estimate_wire_bytes t

  pub parts_bytes : List Part → ℕ
  unfolding part_bytes
  parts_bytes [] = 0
  parts_bytes (p ∷ ps) = part_bytes p + parts_bytes ps

  pub content_bytes : Content → ℕ
  unfolding parts_bytes
  content_bytes missing = 0
  content_bytes (plain t) = estimate_wire_bytes t
  content_bytes (parts ps) = parts_bytes ps

  -- `if m.name: total += len(m.name) + 16`, and so for `tool_call_id`.
  pub field_bytes : Text → ℕ
  field_bytes [] = 0
  field_bytes (c ∷ t) = length (c ∷ t) + 16

  pub message_bytes : Message → ℕ
  unfolding content_bytes tool_calls_bytes field_bytes
  message_bytes m =
      64
      + (content_bytes m.content
          + (tool_calls_bytes m.tool_calls + (field_bytes m.tool_call_id + field_bytes m.name)))

  pub messages_bytes : List Message → ℕ
  unfolding message_bytes
  messages_bytes [] = 0
  messages_bytes (m ∷ ms) = message_bytes m + messages_bytes ms

  unfoldable pub tools_bytes : List ToolDefinition → ℕ
  tools_bytes [] = 0
  tools_bytes (t ∷ ts) =
      64
      + (estimate_wire_bytes t.name
          + (estimate_wire_bytes t.description + estimate_wire_bytes t.schema))
      + tools_bytes ts

  -- `tool_wire_bytes`, where it is given, stands for the tools.
  pub estimate_request_bytes : List Message → List ToolDefinition → Option ℕ → ℕ
  unfolding messages_bytes tools_bytes
  estimate_request_bytes ms tools (some n) = messages_bytes ms + n
  estimate_request_bytes ms tools none = messages_bytes ms + tools_bytes tools
