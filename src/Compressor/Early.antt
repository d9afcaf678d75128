-- ===== src/Compressor/Early.antt =====
-- `split_early_recent`, `early_history_lines` and `format_early_history` of compressor.py.
pub mod Split
pub mod Kept
use mathlib.Core.List.{reverse}
use agents_universe.Prelude.{
  ℕ, zero, suc, ◌+◌, ◌-◌, Bool, true, false, ◌&&◌, Option, none, some, List, [], ◌∷◌, ◌++◌, ltb,
  if◌then◌else◌, length, take, drop,
}
use agents_universe.Prelude.Text.{Text, codes, strip, join, str}
use agents_universe.Compressor.Message.{
  Role, system, user, assistant, tool, ToolCall, call, bare, opaque, Message, content_as_str,
}

abbrev pub recent_turns_keep : ℕ
recent_turns_keep = 8

-- A tool result, or an assistant message that calls tools.
dangles : Role → List ToolCall → Bool
dangles tool cs = true
dangles assistant [] = false
dangles assistant (c ∷ cs) = true
dangles system cs = false
dangles user cs = false

unfoldable pub is_dangling : Message → Bool
unfolding dangles
is_dangling m = dangles m.role m.tool_calls

-- The loop that pops dangling messages off `recent`.
unfoldable pub pop_dangling : List Message → List Message → List Message × List Message
pop_dangling early [] = (early, [])
pop_dangling early (m ∷ recent) =
    let moved = pop_dangling (early ++ m ∷ []) recent in
    if is_dangling m then moved else (early, m ∷ recent)

unfoldable pub split_early_recent : List Message → List Message × List Message
split_early_recent ms =
    let cut = length ms - recent_turns_keep in pop_dangling (take cut ms) (drop cut ms)

role_label : Role → Text
role_label system = codes "SYSTEM"
role_label user = codes "USER"
role_label assistant = codes "ASSISTANT"
role_label tool = codes "TOOL"

-- `none`: `.get` of a `function` that is no `dict` raises `AttributeError`.
tool_names : List ToolCall → Option (List Text)
tool_names [] = some []
tool_names (call id name arguments ∷ cs) = elim (tool_names cs) [
  | none ↦ none
  | some names ↦ some (name ∷ names)
]
tool_names (bare id fn ∷ cs) = none
tool_names (opaque ∷ cs) = tool_names cs

-- The content of a line, with the names of the called tools.
line_content : Text → List ToolCall → Option Text
unfolding tool_names
line_content content [] = some content
line_content content (c ∷ cs) = elim (tool_names (c ∷ cs)) [
  | none ↦ none
  | some names ↦ some (content ++ (codes " [tools: " ++ (join (codes ", ") names ++ codes "]")))
]

abbrev is_blank : Text → Bool
is_blank [] = true
is_blank (c ∷ t) = false

add_line : Role → Text → List Text → List Text
unfolding role_label
add_line role content lines =
    if is_blank (strip content)
    then lines
    else (role_label role ++ (codes ": " ++ take 2000 content)) ∷ lines

unfoldable pub early_history_lines : List Message → Option (List Text)
unfolding line_content add_line
early_history_lines [] = some []
early_history_lines (m ∷ ms) = elim (line_content (content_as_str m.content) m.tool_calls) [
  | none ↦ none
  | some content ↦ elim (early_history_lines ms) [
    | none ↦ none
    | some lines ↦ some (add_line m.role content lines)
  ]
]

-- The characters of lines that are joined by newlines, one for each newline.
abbrev pub chars : List Text → ℕ
chars [] = 0
chars (t ∷ ts) = length t + 1 + chars ts

is_empty : List Text → Bool
is_empty [] = true
is_empty (t ∷ ts) = false

-- The loop over `reversed(parts)`; `kept` stands in the order of the lines.
unfoldable pub keep_recent : ℕ → List Text → ℕ → List Text → List Text
unfolding is_empty
keep_recent cap [] size kept = kept
keep_recent cap (line ∷ rest) size kept =
    let longer = keep_recent cap rest (size + length line + 1) (line ∷ kept) in
    elim (is_empty kept) [
      | true ↦ longer
      | false ↦ if ltb cap (size + length line + 1) then kept else longer
    ]

unfoldable pub kept_lines : ℕ → List Text → List Text
unfolding keep_recent
kept_lines cap lines = keep_recent cap (reverse lines) 0 []

omission : ℕ → ℕ → Text
omission dropped cap =
    codes "[... "
    ++ (str dropped
        ++ (codes " earlier messages omitted from the summary input to stay within "
            ++ (str cap ++ codes " characters ...]")))

abbrev newline : Text
newline = codes "\n"

unfoldable pub format_lines : List Text → Option ℕ → Text
unfolding omission
format_lines lines none = join newline lines
format_lines lines (some cap) =
    let kept = kept_lines cap lines in
    if ltb cap (chars lines)
    then omission (length lines - length kept) cap ++ (newline ++ join newline kept)
    else join newline lines

unfoldable pub format_early_history : List Message → Option ℕ → Option Text
format_early_history early cap = elim (early_history_lines early) [
  | none ↦ none
  | some lines ↦ some (format_lines lines cap)
]
