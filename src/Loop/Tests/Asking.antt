-- ===== src/Loop/Tests/Asking.antt =====
-- A provider whose first reply is lost and whose second is an answer; a world counts the questions.
use dzzzr_cli.Base.{
  ℕ, zero, suc, ◌+◌, ◌≤◌, ◌≡◌, refl, ap, inl, Option, none, some, [], arith, codes, text_eq,
  trim_space, is_space, trim_left, any,
}
use dzzzr_cli.Loop.History.{
  bound_tool_history, source_bytes, source_calls, budget_of, bound_results,
}
use dzzzr_cli.Loop.Retry.{Err, plain_error, network, retryable, by_reason}
use dzzzr_cli.Loop.Chat.{
  LlmResponse, Provider, chat, retry_or_fail, is_aborted, truncated_response, is_empty_answer,
  no_calls, attempt_after, attempts, finish, is_interrupted, judge, pause, reject_aborted,
  send_bounded, settle, can_split_mapping,
}
use dzzzr_cli.Loop.Chat.Attempts.{IsUsable}
use dzzzr_cli.Loop.Chat.Requests.{chat-IsUsable, chat_counts}
use dzzzr_cli.Loop.Tests.{decoder}

abbrev lost : Err
lost = record (plain_error (codes "lost")) { failover = some network }

abbrev answer : LlmResponse
answer = record { content = codes "done"; tool_calls = []; finish_reason = codes "stop" }

abbrev reply : ℕ → Option LlmResponse × Option Err
reply zero = (none, some lost)
reply (suc n) = (some answer, none)

abbrev flaky : Provider ℕ
flaky = record {
  ask = λ messages w. ((reply w).0, (reply w).1, w + 1);
  ctx_err = λ w. none;
  request_err = λ w. none;
  wait = λ n w. (none, w);
  timeout_text = codes "1m";
  lower = λ s. s;
}

chat_run : chat flaky decoder 10 [] [] 0 ≡ (inl answer, 2)
unfolding chat bound_tool_history source_bytes source_calls budget_of retry_or_fail retryable
    by_reason is_aborted truncated_response is_empty_answer no_calls text_eq trim_space is_space
    trim_left any attempt_after attempts finish is_interrupted judge pause reject_aborted
    send_bounded settle can_split_mapping bound_results
chat_run = refl

chat-IsUsable_example : IsUsable answer
chat-IsUsable_example = chat-IsUsable flaky decoder 10 [] [] 0 answer (ap (λ x. x.0) chat_run)

chat_counts_example : (chat flaky decoder 10 [] [] 0).1 ≤ 0 + 3
chat_counts_example =
    chat_counts flaky (λ w. w) (λ messages w. omega arith) (λ n w. omega arith) decoder 10 [] [] 0
