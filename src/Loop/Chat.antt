-- ===== src/Loop/Chat.antt =====
-- agentloop/agent.go, the observer's Chat: one request with its attempts. The provider, the contexts
-- and the timer are parameters over a world that they may change; status lines and statistics are
-- left out.
pub mod Attempts
pub mod Requests
use dzzzr_cli.Base.{
  ℕ, zero, suc, ◌+◌, ◌≡◌, inl, inr, ◌⊎◌, Bool, true, false, not, ◌&&◌, ◌||◌, Option, none, some,
  List, [], ◌∷◌, ◌++◌, ltb, if◌then◌else◌, Text, codes, text_eq, is_empty, trim_space, any, itoa,
}
use dzzzr_cli.Loop.History.{ToolCall, Message, Decoder, named, budget_of, bound_tool_history}
use dzzzr_cli.Loop.Retry.{
  Err, plain_error, err_empty_model_response, err_provider_response, retryable,
}

pub record LlmResponse : Type 0 where
  pub content : Text
  pub tool_calls : List ToolCall
  pub finish_reason : Text

-- `ask` is the delegate's Chat, with what it returns and its error; `ctx_err` and `request_err` are
-- the errors of the call's context and of the request's; `wait` ends with the context's error if
-- the context is done before the delay.
pub record Provider (World : Type 0) : Type 0 where
  pub ask : List Message → World → Option LlmResponse × Option Err × World
  pub ctx_err : World → Option Err
  pub request_err : World → Option Err
  pub wait : ℕ → World → Option Err × World
  pub timeout_text : Text
  pub lower : Text → Text

abbrev pub max_attempts : ℕ
max_attempts = 3

unfoldable pub truncated_response : LlmResponse → Bool
truncated_response r =
    text_eq r.finish_reason (codes "length")
    || (text_eq r.finish_reason (codes "truncated") || text_eq r.finish_reason (codes "max_tokens"))

unfoldable pub is_interrupted : LlmResponse → Bool
is_interrupted r =
    text_eq r.finish_reason (codes "content_filter")
    || (text_eq r.finish_reason (codes "safety") || text_eq r.finish_reason (codes "canceled"))

unfoldable pub is_aborted : LlmResponse → Bool
is_aborted r = text_eq r.finish_reason (codes "error")

unfoldable pub no_calls : List ToolCall → Bool
no_calls [] = true
no_calls (c ∷ cs) = false

unfoldable pub is_empty_answer : LlmResponse → Bool
is_empty_answer r =
    no_calls r.tool_calls
    && (is_empty (trim_space r.content)
        && (text_eq r.finish_reason (codes "stop") || is_empty r.finish_reason))

-- What `chatWithProgress` makes of a reply: the contexts' errors come first.
unfoldable pub settle :
    Text
    → Option Err
    → Option Err
    → Option LlmResponse × Option Err
    → Option LlmResponse × Option Err
settle shown (some c) q r = (none, some c)
settle shown none (some q) r = (
  none,
  some (record q {
    text =
        codes "модель не завершила ответ за "
        ++ (shown ++ (codes "; DZZZR_LLM_REQUEST_TIMEOUT_SECONDS задаёт таймаут: " ++ q.text));
  }),
)
settle shown none none r = r

-- A response that the provider aborted is an error.
unfoldable pub reject_aborted : Option LlmResponse × Option Err → Option LlmResponse × Option Err
reject_aborted (none, e) = (none, e)
reject_aborted (some r, some e) = (some r, some e)
reject_aborted (some r, none) =
    if is_aborted r then (none, some err_provider_response) else (some r, none)

-- What one attempt leads to: an error at once, the end of the loop, or the next attempt with what is
-- left of this one.
pub data Step : Type 0 where
  fails : Err → Step
  breaks : LlmResponse → Step
  continues : Bool → List Message → Option LlmResponse → Option Err → Step

abbrev pub one_small_part : Message
one_small_part = record {
  role = codes "user";
  content =
      codes
        "The provider truncated the previous response; NONE of its tool calls were executed. Continue with ONE SMALL structural mapping part for one level/section via save_local_json. Do not emit the full mapping or scenario text. Reuse previously saved parts. Eventually save a version:2 manifest and call extract_pdf. If you cannot proceed, report the incomplete work explicitly.";
  tool_calls = [];
  tool_call_id = [];
}

unfoldable pub retry_or_fail : (Text → Text) → Bool → List Message → Option LlmResponse → Err → Step
retry_or_fail lower split messages r e =
    if e.is_deadline || e.is_canceled
    then fails e
    else if not (retryable lower e)
    then fails e
    else continues split messages r (some e)

-- The reply of one attempt, after the aborted ones were rejected.
unfoldable pub judge :
    (Text → Text) → ℕ → Bool → List Message → Option LlmResponse × Option Err → Step
judge lower attempt split messages (r, some e) = retry_or_fail lower split messages r e
judge lower attempt split messages (none, none) =
    retry_or_fail lower split messages none err_empty_model_response
judge lower attempt split messages (some r, none) =
    if truncated_response r && (split && ltb (attempt + 1) max_attempts)
    then continues false (messages ++ one_small_part ∷ []) (some r) none
    else if is_empty_answer r
    then retry_or_fail lower split messages (some r) err_empty_model_response
    else breaks r

-- After the loop.
unfoldable pub finish : Option LlmResponse → Option Err → LlmResponse ⊎ Err
finish r (some e) = inr (record e { text = codes "модель не ответила за 3 попытки: " ++ e.text })
finish none none = inr (plain_error (codes "модель вернула пустой ответ"))
finish (some r) none =
    if truncated_response r
    then inr (
        plain_error (
          codes
            "модель достигла лимита длины ответа; неполные вызовы инструментов не выполнены. Разбейте экспорт на меньшие части"))
    else if is_interrupted r
    then inr (
        plain_error (
          codes "провайдер прервал ответ (finish_reason="
          ++ (r.finish_reason ++ codes "); вызовы инструментов не выполнены")))
    else inl r

-- The delay before an attempt; there is none before the first.
unfoldable pub pause : {World : Type 0} → Provider World → ℕ → World → Option Err × World
pause p zero w = (none, w)
pause p (suc n) w = p.wait (suc n) w

unfoldable pub calls_pdf : ToolCall → Bool
calls_pdf c =
    text_eq (named c.function c.name) (codes "index_pdf")
    || text_eq (named c.function c.name) (codes "read_pdf")

unfoldable pub can_split_mapping : List Text → List Message → Bool
can_split_mapping tools messages =
    any (λ t. text_eq t (codes "extract_pdf")) tools
    && any (λ m. any calls_pdf m.tool_calls) messages

module _ {World : Type 0} (p : Provider World) where
  open p use {ask, ctx_err, request_err, timeout_text, lower}

  unfoldable pub attempt_after : ℕ → Bool → List Message → Option Err × World → Step × World
  unfolding settle reject_aborted judge
  attempt_after attempt split messages (some e, w) = (fails e, w)
  attempt_after attempt split messages (none, w) =
      let (r, e, w') = ask messages w in
      (
        judge lower attempt split messages
            (reject_aborted (settle timeout_text (ctx_err w') (request_err w') (r, e))),
        w',
      )

  unfoldable pub attempts :
      ℕ
      → ℕ
      → Bool
      → List Message
      → Option LlmResponse
      → Option Err
      → World
      → (LlmResponse ⊎ Err) × World
  unfolding pause attempt_after finish
  attempts zero attempt split messages r e w = (finish r e, w)
  attempts (suc left) attempt split messages r e w =
      let (step, w') = attempt_after attempt split messages (pause p attempt w) in
      elim step [
        | fails err ↦ (inr err, w')
        | breaks response ↦ (finish (some response) none, w')
        | continues split' messages' r' e' ↦ attempts left (suc attempt) split' messages' r' e' w'
      ]

  unfoldable pub send_bounded :
      ℕ → List Text → Option (List Message) → World → (LlmResponse ⊎ Err) × World
  unfolding attempts can_split_mapping
  send_bounded budget tools none w = (
    inr (
        plain_error (
          codes "source document results exceed context budget ("
          ++ (itoa budget
              ++ codes
                  " bytes); stopped without discarding pages. Increase DZZZR_LLM_SOURCE_CONTEXT_BYTES if the model supports it, or process the document in separate sections"))),
    w,
  )
  send_bounded budget tools (some messages) w =
      attempts max_attempts 0 (can_split_mapping tools messages) messages none none w

  -- `Chat`; `tools` are the names of the tool definitions.
  unfoldable pub chat : Decoder → ℕ → List Text → List Message → World → (LlmResponse ⊎ Err) × World
  unfolding send_bounded
  chat d source_budget tools messages w =
      send_bounded (budget_of source_budget) tools (bound_tool_history d messages source_budget) w
