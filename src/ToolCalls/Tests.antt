-- ===== src/ToolCalls/Tests.antt =====
-- Repairs of small histories.
use agents_universe.Prelude.{◌≤◌, ◌≡◌, refl, false, some, List, [], ◌∷◌, arith}
use agents_universe.Prelude.Text.{Text, codes}
use agents_universe.Prelude.TextSet.{same, elem, insert, discard}
use agents_universe.Compressor.Message.{
  Message, user, assistant, tool, ToolCall, call, missing, plain,
}
use agents_universe.ToolCalls.{drop_orphan_tool_messages}
use agents_universe.ToolCalls.Paired.{calls, requests, IsPaired, ends_dangling}
use agents_universe.ToolCalls.Repaired.{requests_dicts, returned-IsPaired, drop_orphan-IsPaired}
use agents_universe.ToolCalls.Unchanged.{requests_named, drop_orphan_unchanged}

abbrev asks : List ToolCall → Message
asks cs = record {
  role = assistant;
  content = missing;
  tool_calls = cs;
  tool_call_id = [];
  name = [];
}

abbrev reads : Text → ToolCall
reads i = call i (codes "read_file") (codes "{}")

abbrev result : Text → Message
result i = record {
  role = tool;
  content = plain (codes "done");
  tool_calls = [];
  tool_call_id = i;
  name = [];
}

abbrev says : Text → Message
says t = record { role = user; content = plain t; tool_calls = []; tool_call_id = []; name = [] }

-- An orphan in front, an answer twice, and a request at the end.
abbrev broken : List Message
broken =
    result (codes "x")
    ∷ says (codes "hello")
    ∷ asks (reads (codes "a") ∷ [])
    ∷ result (codes "a")
    ∷ result (codes "a")
    ∷ asks (reads (codes "b") ∷ [])
    ∷ []

abbrev repaired : List Message
repaired = says (codes "hello") ∷ asks (reads (codes "a") ∷ []) ∷ result (codes "a") ∷ []

repair : drop_orphan_tool_messages broken ≡ some repaired
unfolding drop_orphan_tool_messages same elem insert discard
repair = refl

repair_again : drop_orphan_tool_messages repaired ≡ some repaired
unfolding drop_orphan_tool_messages same elem insert discard
repair_again = refl

-- A request of two calls at the end is kept where one of them is answered.
half_answered :
    drop_orphan_tool_messages
      (asks (reads (codes "a") ∷ reads (codes "b") ∷ []) ∷ result (codes "a") ∷ [])
    ≡ some (asks (reads (codes "a") ∷ reads (codes "b") ∷ []) ∷ result (codes "a") ∷ [])
unfolding drop_orphan_tool_messages same elem insert discard
half_answered = refl

drop_orphan-IsPaired_example :
    (out : List Message) × (drop_orphan_tool_messages broken ≡ some out)
    × IsPaired out
    × (ends_dangling out ≡ false)
unfolding requests_dicts
drop_orphan-IsPaired_example = drop_orphan-IsPaired broken refl

requested_once : (i : Text) → requests i repaired ≤ 1
unfolding requests calls
requested_once i = ground arith

drop_orphan_unchanged_example : drop_orphan_tool_messages repaired ≡ some repaired
unfolding requests_named ends_dangling
drop_orphan_unchanged_example =
    drop_orphan_unchanged repaired refl requested_once
      (returned-IsPaired repaired repaired repair_again).0 refl
