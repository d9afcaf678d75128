-- ===== src/Compressor/Message.antt =====
-- `Message` and `ToolDefinition` of packages/agent-core/src/agent_core/providers/base.py, as
-- compressor.py reads them.
use agents_universe.Prelude.{List, [], ◌∷◌}
use agents_universe.Prelude.Text.{Text, codes, join}

pub data Role : Type 0 where
  system user assistant tool : Role

-- A part of a multimodal content: a `dict` of the type `image`, another `dict` with its text (empty
-- if it has none), or a value that is no `dict`, with its `str()`.
pub data Part : Type 0 where
  text : Text → Part
  image : Text → Text → Part
  other : Text → Part

pub data Content : Type 0 where
  missing : Content
  plain : Text → Content
  parts : List Part → Content

-- An entry of `tool_calls`: a `dict` with its id, its function's name and the text of its arguments;
-- a `dict` whose `function` is no `dict`, with its id and that value's `str()`; or no `dict`.
pub data ToolCall : Type 0 where
  call : Text → Text → Text → ToolCall
  bare : Text → Text → ToolCall
  opaque : ToolCall

-- `None` and an empty list of tool calls are one value here: the code only tests for truth.
pub record Message : Type 0 where
  pub role : Role
  pub content : Content
  pub tool_calls : List ToolCall
  pub tool_call_id : Text
  pub name : Text

-- The schema is the text that `json.dumps` writes for it.
pub record ToolDefinition : Type 0 where
  pub name : Text
  pub description : Text
  pub schema : Text

part_texts : List Part → List Text
part_texts [] = []
part_texts (text t ∷ ps) = t ∷ part_texts ps
part_texts (image media content ∷ ps) = [] ∷ part_texts ps
part_texts (other t ∷ ps) = part_texts ps

unfoldable pub content_as_str : Content → Text
unfolding part_texts
content_as_str missing = []
content_as_str (plain t) = t
content_as_str (parts ps) = join (codes " ") (part_texts ps)
