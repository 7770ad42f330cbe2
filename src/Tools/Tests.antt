-- ===== src/Tools/Tests.antt =====
-- A small engine: a world is a number, which is its clock too; a run adds its argument to it.
use dzzzr_cli.Base.{
  ℕ, ◌+◌, ◌≡◌, ◌⊎◌, refl, inr, true, false, Option, none, some, Text, codes, text_eq, ℤ, negsuc,
  atoi, trim_space,
}
use dzzzr_cli.Tools.Policy.{
  Confirmer, policy_approve, policy_readonly, authorize, normalized, ask, choose_confirmer,
  read_answer,
}
use dzzzr_cli.Tools.Arguments.{Floats, Argument, string}
use dzzzr_cli.Tools.Cache.{ReadCache, cache_key, get, put}
use dzzzr_cli.Tools.Execute.{encoded, Codec, Tool, execute, run_renewing}
use dzzzr_cli.Tools.Execute.Reads.{FromCache, RanFrom, execute_read-RanFrom}
use dzzzr_cli.Tools.Execute.Safety.{Refused, Carried, execute_mutating}
use dzzzr_cli.Tools.Confirmation.{
  Response, elicited, Approves, tool_handler, answer_from_request, accepted, call_of,
  tool_handler-Approves,
}

abbrev codec : Codec ℕ Text ℕ
codec = record {
  no_args = λ a. false;
  marshal_args = λ a. some (codes "{}");
  as_string = λ v. some v;
  marshal = λ v. encoded v;
  marshal_partial = λ v e. encoded e;
  is_nil = λ v. true;
  clock = λ w. w;
}

abbrev enter_code : Tool ℕ Text ℕ
enter_code = record {
  name = codes "enter_code";
  mutating = true;
  no_cache = false;
  run = λ a w. (codes "accepted", none, w + a);
  gate = record { policy = policy_approve; confirmer = none };
  reauthenticate = none;
}

abbrev enter_code_readonly : Tool ℕ Text ℕ
enter_code_readonly = record enter_code {
  gate = record { policy = policy_readonly; confirmer = none };
}

-- A read whose session is lost until it is renewed.
abbrev show_level : Tool ℕ Text ℕ
show_level = record {
  name = codes "show_level";
  mutating = false;
  no_cache = false;
  run = λ a w. (codes "level", some (record { text = codes "session"; is_session = true }), w + a);
  gate = record { policy = policy_readonly; confirmer = none };
  reauthenticate = some (λ w. (none, w + 100));
}

abbrev cache : ReadCache Text
cache = record { ttl = 10; entries = λ k. none }

abbrev nods : Confirmer ℕ ℕ
nods = λ tool a w. (true, none, w + 1)

abbrev print_of : ℕ → Text
print_of = λ a. codes "f1"

abbrev accept_f1 : Option Response
accept_f1 = some (elicited (codes "accept") (some true) (some (codes "f1")))

abbrev sent_five : Text ⊎ ℕ
sent_five = inr 5

carried_run : (execute codec enter_code (some nods) 5 7 (some cache)).1 ≡ 13
unfolding execute authorize text_eq normalized ask choose_confirmer read_answer run_renewing
carried_run = refl

renewed_run : (execute codec show_level none 5 7 (some cache)).1 ≡ 117
unfolding execute cache_key get run_renewing
renewed_run = refl

handled_run : (tool_handler codec print_of enter_code none sent_five accept_f1 7 none).1 ≡ 12
unfolding tool_handler execute text_eq answer_from_request accepted call_of authorize normalized ask
    choose_confirmer read_answer run_renewing
handled_run = refl

execute_mutating_example :
    Refused codec enter_code (some nods) 5 7 (some cache)
    ⊎ Carried codec enter_code (some nods) 5 7 (some cache)
execute_mutating_example = execute_mutating codec enter_code (some nods) 5 7 (some cache) refl

execute_read-RanFrom_example :
    FromCache codec show_level 5 7 (some cache) (execute codec show_level none 5 7 (some cache))
    ⊎ RanFrom show_level 5 7 (execute codec show_level none 5 7 (some cache)).1
execute_read-RanFrom_example = execute_read-RanFrom codec show_level none 5 7 (some cache) refl

tool_handler-Approves_example :
    (((tool_handler codec print_of enter_code none sent_five accept_f1 7 none).1 ≡ 7)
      × ((tool_handler codec print_of enter_code none sent_five accept_f1 7 none).2 ≡ none))
    ⊎ ((args : ℕ) × (sent_five ≡ inr args)
        × Approves accept_f1 (print_of args)
        × ((tool_handler codec print_of enter_code none sent_five accept_f1 7 none).1 ≡ 7 + args))
tool_handler-Approves_example =
    tool_handler-Approves codec print_of enter_code none sent_five accept_f1 7 none refl refl

put_then_get_run : (get (put (some cache) (codes "k") (codes "v") 3) (codes "k") 20).0 ≡ none
unfolding get put text_eq
put_then_get_run = refl

-- Floats that are integers.
abbrev floats : Floats ℤ
floats = record {
  truncate = λ f. f;
  format = λ f. codes "f";
  parse = λ s. none;
  is_zero = λ f. false;
  quote = λ s. s;
}

abbrev level_argument : Text → Argument ℤ
level_argument key = string (codes " -7 ")

abbrev same : Text → Text
same s = s

seven_read : atoi (trim_space (codes " -7 ")) ≡ (negsuc 6, true)
unfolding atoi trim_space
seven_read = refl
