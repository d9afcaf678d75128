-- ===== src/Compressor/Tests.antt =====
-- The theorems of compressor.py at concrete histories.
use agents_universe.Prelude.{
  Pointwise, ℕ, zero, suc, ◌*◌, ◌/◌, ◌≤◌, ◌<◌, ◌≡◌, refl, true, Option, some, List, [], ◌∷◌, ◌++◌,
  arith, length, take, drop,
}
use agents_universe.Prelude.Int.{pos}
use agents_universe.Prelude.Text.{lstrip, Text, codes, isascii, split, strip, join}
use agents_universe.Compressor.Message.{user, tool, image, plain, parts, Message, content_as_str}
use agents_universe.Compressor.Estimate.{
  estimate_tokens, tool_calls_bytes, image_bytes, tools_bytes,
}
use agents_universe.Compressor.Estimate.Sections.{Breakdown, request_byte_breakdown}
use agents_universe.Compressor.Truncate.{truncate_oversized_tool_messages, cutoff, tool_budget}
use agents_universe.Compressor.Truncate.Search.{IsCut, cutoff-IsCut}
use agents_universe.Compressor.Truncate.Shape.{Truncates, truncate-Truncates}
use agents_universe.Compressor.Early.{
  split_early_recent, recent_turns_keep, kept_lines, keep_recent, pop_dangling, is_dangling,
  format_early_history, format_lines, early_history_lines,
}
use agents_universe.Compressor.Early.Split.{IsSplit, split_lem}
use agents_universe.Compressor.History.{compress_history, build_summary_pair}
use agents_universe.Compressor.History.Outcome.{IsCompressed, compress_history-cases}

-- `int(n * 1.15)`, by integers.
abbrev escaped : ℕ → ℕ
escaped n = n * 115 / 100

abbrev said : Text → Message
said t = record { role = user; content = plain t; tool_calls = []; tool_call_id = []; name = [] }

abbrev result : Text → Message
result t = record {
  role = tool;
  content = plain t;
  tool_calls = [];
  tool_call_id = codes "1";
  name = [];
}

abbrev history : List Message
history = said (codes "hello") ∷ result (codes "ok") ∷ []

abbrev repeat : ℕ → ℕ → Text
repeat zero c = []
repeat (suc n) c = c ∷ repeat n c

split_lem_example :
    ((split_early_recent history).0 ++ (split_early_recent history).1 ≡ history)
    × (length (split_early_recent history).1 ≤ recent_turns_keep)
    × IsSplit (take 0 history) (drop 0 history) (split_early_recent history)
split_lem_example = split_lem history

truncate-Truncates_example :
    Pointwise Truncates history (truncate_oversized_tool_messages history).0
truncate-Truncates_example = truncate-Truncates history

abbrev long_text : Text
long_text = repeat 8004 b'a'

long_text_is_big : tool_budget < estimate_tokens long_text
unfolding estimate_tokens isascii split
long_text_is_big = omega arith

cutoff-IsCut_example : IsCut long_text (cutoff long_text)
cutoff-IsCut_example = cutoff-IsCut long_text long_text_is_big

abbrev counted : Breakdown
counted = record { system_bytes = 0; images = 27; text_bytes = 0; tools = 0 }

abbrev with_image : List Message
with_image = record (said []) { content = parts (image (codes "png") (codes "abc") ∷ []) } ∷ []

with_image_breakdown : request_byte_breakdown escaped with_image [] ≡ some counted
unfolding request_byte_breakdown image_bytes tool_calls_bytes tools_bytes
with_image_breakdown = refl

-- Nine messages, and providers that answer, or answer blanks.
abbrev nine : List Message
nine =
    said (codes "a")
    ∷ said (codes "b")
    ∷ said (codes "c")
    ∷ said (codes "d")
    ∷ said (codes "e")
    ∷ said (codes "f")
    ∷ said (codes "g")
    ∷ said (codes "h")
    ∷ said (codes "i")
    ∷ []

abbrev last_eight : List Message
last_eight = drop 1 nine

abbrev tells : List Message → Option Text
tells p = some (codes " ok ")

nine_summarized :
    compress_history tells escaped nine (pos 0) true
    ≡ some (build_summary_pair (codes "ok") ++ last_eight)
unfolding compress_history split_early_recent pop_dangling is_dangling format_early_history
    early_history_lines format_lines keep_recent kept_lines content_as_str strip lstrip join
nine_summarized = refl

compress_history-cases_example :
    IsCompressed tells escaped nine (pos 0) true (build_summary_pair (codes "ok") ++ last_eight)
compress_history-cases_example =
    compress_history-cases tells escaped nine (pos 0) true
      (build_summary_pair (codes "ok") ++ last_eight) nine_summarized

abbrev silent : List Message → Option Text
silent p = some (codes "  ")

nine_kept : compress_history silent escaped nine (pos 0) true ≡ some nine
unfolding compress_history split_early_recent pop_dangling is_dangling format_early_history
    early_history_lines format_lines keep_recent kept_lines content_as_str strip join
nine_kept = refl
