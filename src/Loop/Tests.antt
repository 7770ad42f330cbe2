-- ===== src/Loop/Tests.antt =====
-- A conversation with a PDF that was read twice and an engine's answer that is too long.
mod Asking
mod Running
use dzzzr_cli.Base.{
  ◌≤◌, ◌≡◌, refl, not, none, some, List, [], ◌∷◌, arith, Text, codes, text_eq, keep, All,
}
use dzzzr_cli.Loop.History.{
  is_source, is_tool, source_calls_of, bytes_of, bound_results, bound_message, bound_result,
  ToolCall, Message, Decoder, bound_tool_history, is_replaceable, source_bytes, budget_of,
  total_budget, source_calls,
}
use dzzzr_cli.Loop.History.Bound.{charged, Fits, frames}
use dzzzr_cli.Loop.History.Sent.{calls, bound_tool_history_lem, bound_tool_history_intact}

abbrev pub decoder : Decoder
decoder = record { path_in = λ a. []; content_in = λ a. none }

abbrev read_call : ToolCall
read_call = record {
  id = codes "c1";
  name = codes "read_pdf";
  function = none;
  path_argument = some (codes "g.pdf");
}

abbrev asks : Message
asks = record {
  role = codes "assistant";
  content = [];
  tool_calls = read_call ∷ [];
  tool_call_id = [];
}

abbrev answers : Text → Text → Message
answers id content = record {
  role = codes "tool";
  content = content;
  tool_calls = [];
  tool_call_id = id;
}

abbrev pub talk : List Message
talk =
    asks
    ∷ answers (codes "c1") (codes "pages")
    ∷ asks
    ∷ answers (codes "c1") (codes "pages")
    ∷ answers (codes "e1") (codes "level")
    ∷ []

talk_run : bound_tool_history decoder talk 10 ≡ some talk
unfolding bound_tool_history source_bytes is_source is_tool text_eq source_calls source_calls_of
    bytes_of budget_of bound_results bound_message is_replaceable bound_result
talk_run = refl

small_enough : source_bytes decoder (calls decoder talk 10) talk ≤ budget_of 10
unfolding source_bytes is_source is_tool text_eq source_calls source_calls_of bytes_of budget_of
small_enough = omega arith

bound_tool_history_lem_example :
    (frames talk ≡ frames talk)
    × (source_bytes decoder (calls decoder talk 10) talk ≤ budget_of 10)
    × (charged (calls decoder talk 10) talk ≤ total_budget)
    × All (Fits (calls decoder talk 10)) talk
bound_tool_history_lem_example = bound_tool_history_lem decoder talk 10 talk talk_run

bound_tool_history_intact_example :
    (out : List Message) × (bound_tool_history decoder talk 10 ≡ some out)
    × (keep (λ m. not (is_replaceable (calls decoder talk 10) m)) out
        ≡ keep (λ m. not (is_replaceable (calls decoder talk 10) m)) talk)
bound_tool_history_intact_example = bound_tool_history_intact decoder talk 10 small_enough
