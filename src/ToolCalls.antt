-- ===== src/ToolCalls.antt =====
-- The repair of a history before it is sent: packages/agent-core/src/agent_core/agent.py,
-- `_drop_orphan_tool_messages`. `none` is the exception of a tool call that is no `dict`.
pub mod Paired
pub mod Repaired
pub mod Unchanged
mod Tests
use agents_universe.Prelude.{
  ℕ, Bool, true, false, ◌&&◌, not, Option, none, some, List, [], ◌∷◌, if◌then◌else◌,
}
use agents_universe.Prelude.Text.{Text}
use agents_universe.Prelude.TextSet.{elem, insert, discard}
use agents_universe.Prelude.Fallible.{◌>>=◌, for_each}
use agents_universe.Compressor.Message.{
  Message, Role, system, user, assistant, tool, ToolCall, call, bare, opaque,
}

-- `if call_id: pending.add(call_id)`
unfoldable pub add_id : Text → List Text → List Text
unfolding insert
add_id [] pending = pending
add_id (c ∷ i) pending = insert (c ∷ i) pending

unfoldable pub request : ToolCall → List Text → Option (List Text)
unfolding add_id
request (call i name arguments) pending = some (add_id i pending)
request (bare i value) pending = some (add_id i pending)
request opaque pending = none

-- The loop over the messages: what it puts into `cleaned`.
unfoldable pub sweep : List Text → List Message → Option (List Message)
unfolding for_each request elem discard
sweep pending [] = some []
sweep pending (m ∷ ms) =
    let dropped = sweep pending ms in
    let answered = (do rest ← sweep (discard m.tool_call_id pending) ms; some (m ∷ rest)) in
    elim m.role [
      | assistant ↦ do
        requested ← for_each request m.tool_calls pending
        rest ← sweep requested ms
        some (m ∷ rest)
      | tool ↦ if elem m.tool_call_id pending then answered else dropped
      | system ↦ do rest ← sweep pending ms; some (m ∷ rest)
      | user ↦ do rest ← sweep pending ms; some (m ∷ rest)
    ]

unfoldable pub is_dangling : Message → Bool
is_dangling m = elim m.role [
  | assistant ↦ elim m.tool_calls [ [] ↦ false | c ∷ cs ↦ true ]
  | system ↦ false
  | user ↦ false
  | tool ↦ false
]

-- The loop that pops the last message while it is dangling.
unfoldable pub pop_dangling : List Message → List Message
unfolding is_dangling
pop_dangling [] = []
pop_dangling (m ∷ ms) = elim (pop_dangling ms) [
  | [] ↦ if is_dangling m then [] else m ∷ []
  | n ∷ ns ↦ m ∷ n ∷ ns
]

unfoldable pub drop_orphan_tool_messages : List Message → Option (List Message)
unfolding sweep pop_dangling
drop_orphan_tool_messages ms = do cleaned ← sweep [] ms; some (pop_dangling cleaned)
