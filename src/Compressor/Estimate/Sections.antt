-- ===== src/Compressor/Estimate/Sections.antt =====
-- `request_byte_breakdown` of compressor.py: the estimate, by section.
use agents_universe.Prelude.{
  Option-cases, inl, inr, ℕ, ◌+◌, ◌≡◌, refl, Option, none, some, List, [], ◌∷◌, arith,
}
use agents_universe.Compressor.Message.{
  Role, system, user, assistant, tool, Part, text, image, other, Content, missing, plain, parts,
  Message, ToolDefinition,
}
use agents_universe.Compressor.Estimate.{
  estimate_wire_bytes, tool_calls_bytes, image_bytes, parts_bytes, content_bytes, field_bytes,
  message_bytes, messages_bytes, tools_bytes, estimate_request_bytes,
}

pub record Breakdown : Type 0 where
  pub system_bytes : ℕ
  pub images : ℕ
  pub text_bytes : ℕ
  pub tools : ℕ

-- What the parts of one content add: the bytes of images, and those of the other parts.
pub record Shares : Type 0 where
  pub of_images : ℕ
  pub of_text : ℕ

module _ (escaped : ℕ → ℕ) where
  part_shares : List Part → Shares
  part_shares [] = record { of_images = 0; of_text = 0 }
  part_shares (text t ∷ ps) =
      let rest = part_shares ps in
      record { of_images = rest.of_images; of_text = estimate_wire_bytes escaped t + rest.of_text }
  part_shares (image media content ∷ ps) =
      let rest = part_shares ps in
      record { of_images = image_bytes escaped content + rest.of_images; of_text = rest.of_text }
  part_shares (other t ∷ ps) =
      let rest = part_shares ps in
      record { of_images = rest.of_images; of_text = estimate_wire_bytes escaped t + rest.of_text }

  -- `None` cannot be iterated over: the call raises `TypeError`.
  content_shares : Content → Option Shares
  content_shares missing = none
  content_shares (plain t) =
      some (record { of_images = 0; of_text = estimate_wire_bytes escaped t })
  content_shares (parts ps) = some (part_shares ps)

  add_content : Role → Shares → Breakdown → Breakdown
  add_content system s b = record b {
    images = s.of_images + b.images;
    system_bytes = s.of_text + b.system_bytes;
  }
  add_content role s b = record b {
    images = s.of_images + b.images;
    text_bytes = s.of_text + b.text_bytes;
  }

  add_message : Message → Option Shares → Breakdown → Option Breakdown
  unfolding add_content
  add_message m none b = none
  add_message m (some s) b =
      let c = add_content m.role s b in
      some (record c { text_bytes = tool_calls_bytes escaped m.tool_calls + c.text_bytes })

  add_messages : List Message → Breakdown → Option Breakdown
  add_messages [] b = some b
  add_messages (m ∷ ms) b = elim (add_message m (content_shares m.content) b) [
    | none ↦ none
    | some c ↦ add_messages ms c
  ]

  unfoldable pub request_byte_breakdown : List Message → List ToolDefinition → Option Breakdown
  unfolding add_messages add_message content_shares part_shares
  request_byte_breakdown ms tools =
      add_messages ms
        (record { system_bytes = 0; images = 0; text_bytes = 0; tools = tools_bytes escaped tools })

  -- What the breakdown leaves out: the fixed overhead of a message, and its two short fields.
  abbrev pub overhead : List Message → ℕ
  overhead [] = 0
  overhead (m ∷ ms) =
      64 + (field_bytes escaped m.tool_call_id + field_bytes escaped m.name) + overhead ms

  abbrev pub sum_of : Breakdown → ℕ
  sum_of b = b.system_bytes + b.images + b.text_bytes + b.tools

  part_shares_lem :
      (ps : List Part)
      → (part_shares ps).of_images + (part_shares ps).of_text ≡ parts_bytes escaped ps
  unfolding part_shares parts_bytes
  part_shares_lem [] = refl
  part_shares_lem (text t ∷ ps) = omega (arith, part_shares_lem ps)
  part_shares_lem (image media content ∷ ps) = omega (arith, part_shares_lem ps)
  part_shares_lem (other t ∷ ps) = omega (arith, part_shares_lem ps)

  content_shares_lem :
      (c : Content) (s : Shares)
      → content_shares c ≡ some s
      → s.of_images + s.of_text ≡ content_bytes escaped c
  unfolding content_shares content_bytes
  content_shares_lem missing s h = cc
  content_shares_lem (plain t) s h = ground arith
  content_shares_lem (parts ps) s h = ground (arith, part_shares_lem ps)

  add_content_lem :
      (role : Role) (s : Shares) (b : Breakdown)
      → sum_of (add_content role s b) ≡ s.of_images + s.of_text + sum_of b
  unfolding add_content
  add_content_lem system s b = omega arith
  add_content_lem user s b = omega arith
  add_content_lem assistant s b = omega arith
  add_content_lem tool s b = omega arith

  add_messages_lem :
      (ms : List Message) (b c : Breakdown)
      → add_messages ms b ≡ some c
      → sum_of c + overhead ms ≡ messages_bytes escaped ms + sum_of b
  unfolding add_messages add_message messages_bytes message_bytes
  add_messages_lem [] b c h = ground arith
  add_messages_lem (m ∷ ms) b c h = elim (Option-cases (content_shares m.content)) [
    | inl e ↦ absurd (ground arith)
    | inr (s, e) ↦
        let d = add_content m.role s b in
        let step =
          add_messages_lem ms
            (record d { text_bytes = tool_calls_bytes escaped m.tool_calls + d.text_bytes }) c
            (ground arith) in
        omega (arith, step, add_content_lem m.role s b, content_shares_lem m.content s e)
  ]

  -- The four sections add up to the estimate of the request, less the overhead of each message and
  -- its two short fields.
  breakdown_total :
      (ms : List Message) (tools : List ToolDefinition) (b : Breakdown)
      → request_byte_breakdown ms tools ≡ some b
      → sum_of b + overhead ms ≡ estimate_request_bytes escaped ms tools none
  unfolding request_byte_breakdown estimate_request_bytes
  breakdown_total ms tools b h = omega (arith, add_messages_lem ms _ b h)
