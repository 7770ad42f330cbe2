-- ===== src/Loop/Tests/Running.antt =====
-- A model that calls one tool, twice in one message, and then answers.
use dzzzr_cli.Base.{
  ℕ, zero, suc, ◌+◌, ◌≡◌, refl, inl, inr, ◌⊎◌, false, Option, none, some, List, [], ◌∷◌, Text,
  codes, text_eq, find,
}
use dzzzr_cli.Loop.History.{Message}
use dzzzr_cli.Loop.Retry.{Err}
use dzzzr_cli.Loop.Turns.{
  ReturnedCall, Answer, returned, LoopTool, Encoding, LoopResult, goes_on, tool_message, run_turn,
  turns, run_tool_loop, execute_named, run_found, run_checked, recover, name_of, decoded, or_empty,
  encoded_call, decoded_call, prepare, both_prepared, prepare_all, calls_of, prepend, calls_unless,
  turn_unless, run_calls, close_turn, run_prepared, act_on_calls, act_on,
}
use dzzzr_cli.Loop.Turns.Protocol.{Continues, run_turn-Continues}

abbrev add_tool : LoopTool ℕ ℕ
add_tool = record {
  name = codes "add";
  check = λ a. none;
  run = λ a w. (returned (record { content = codes "sum"; is_error = false }), w + a);
}

abbrev numbers : Encoding ℕ
numbers = record {
  decode = λ t a. inr (some 7);
  encode = λ a. inr (codes "7");
  no_args = 0;
  path_of = λ a. none;
}

abbrev add_call : Text → ReturnedCall ℕ
add_call id = record { id = id; name = codes "add"; function = none; arguments = some 5 }

abbrev model_says : ℕ → Answer ℕ
model_says zero = record {
  content = [];
  tool_calls = add_call (codes "a") ∷ add_call (codes "b") ∷ [];
}
model_says (suc n) = record { content = codes "done"; tool_calls = [] }

abbrev never : ℕ → Option Err
never w = none

abbrev ask_model : List Message → ℕ → (Answer ℕ ⊎ Err) × ℕ
ask_model messages w = (inl (model_says w), w + 1)

abbrev loop_result : LoopResult
loop_result = record { content = codes "done"; iterations = 2 }

loop_run : run_tool_loop numbers (add_tool ∷ []) never ask_model 4 [] 0 ≡ (inl loop_result, 12)
unfolding run_tool_loop turns run_turn execute_named run_found run_checked recover name_of decoded
    or_empty encoded_call decoded_call prepare both_prepared prepare_all calls_of prepend
    calls_unless turn_unless run_calls close_turn run_prepared act_on_calls act_on text_eq find
loop_run = refl

abbrev after_turn : List Message
after_turn =
    record {
      role = codes "assistant";
      content = [];
      tool_calls =
          record {
            id = codes "a";
            name = codes "add";
            function = some (record { name = codes "add"; arguments = codes "7" });
            path_argument = none;
          }
          ∷ record {
            id = codes "b";
            name = codes "add";
            function = some (record { name = codes "add"; arguments = codes "7" });
            path_argument = none;
          }
          ∷ [];
      tool_call_id = [];
    }
    ∷ tool_message (codes "a") (codes "sum")
    ∷ tool_message (codes "b") (codes "sum")
    ∷ []

turn_run : (run_turn numbers (add_tool ∷ []) never ask_model 0 [] 0).0 ≡ goes_on after_turn
unfolding run_turn execute_named run_found run_checked recover name_of decoded or_empty encoded_call
    decoded_call prepare both_prepared prepare_all calls_of prepend calls_unless turn_unless
    run_calls close_turn run_prepared act_on_calls act_on text_eq find
turn_run = refl

run_turn-Continues_example : Continues numbers 0 [] (inl (model_says 0)) after_turn
run_turn-Continues_example =
    run_turn-Continues numbers (add_tool ∷ []) never ask_model 0 [] 0 after_turn turn_run
