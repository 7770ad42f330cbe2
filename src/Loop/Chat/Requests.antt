-- ===== src/Loop/Chat/Requests.antt =====
-- The whole request: its answer, and how often the provider is asked for it.
use dzzzr_cli.Base.{
  ℕ, zero, suc, ◌+◌, ◌≤◌, ◌≡◌, inl, inr, Bool, Option, none, some, List, arith, Text,
}
use dzzzr_cli.Loop.History.{Message, Decoder, bound_tool_history, budget_of}
use dzzzr_cli.Loop.Retry.{Err}
use dzzzr_cli.Loop.Chat.{
  LlmResponse, Provider, pause, attempt_after, attempts, max_attempts, send_bounded,
  can_split_mapping, chat,
}
use dzzzr_cli.Loop.Chat.Attempts.{IsUsable, Step-cases, attempts-IsUsable}

module _ {World : Type 0} (p : Provider World) where
  send_bounded-IsUsable :
      (budget : ℕ) (tools : List Text) (bounded : Option (List Message)) (w : World)
      (out : LlmResponse)
      → (send_bounded p budget tools bounded w).0 ≡ inl out
      → IsUsable out
  unfolding send_bounded
  send_bounded-IsUsable budget tools none w out h = cc h
  send_bounded-IsUsable budget tools (some messages) w out h =
      attempts-IsUsable p max_attempts 0 (can_split_mapping tools messages) messages none none w out
        tt h

  -- A response that a request returns may be acted on: it is not cut off by a length limit, the
  -- provider did not interrupt or abort it, and it has a call or text that is not blank if its finish
  -- reason is `stop` or absent. With another finish reason it may have neither.
  pub chat-IsUsable :
      (d : Decoder) (source_budget : ℕ) (tools : List Text) (messages : List Message) (w : World)
      (out : LlmResponse)
      → (chat p d source_budget tools messages w).0 ≡ inl out
      → IsUsable out
  unfolding chat
  chat-IsUsable d source_budget tools messages w out h =
      send_bounded-IsUsable (budget_of source_budget) tools
        (bound_tool_history d messages source_budget) w out h

module _ {World : Type 0} (p : Provider World) (asked : World → ℕ)
    (ask_counts : (messages : List Message) (w : World) → asked (p.ask messages w).2 ≤ asked w + 1)
    (wait_counts : (n : ℕ) (w : World) → asked (p.wait n w).1 ≤ asked w) where
  pause_counts : (n : ℕ) (w : World) → asked (pause p n w).1 ≤ asked w
  unfolding pause
  pause_counts zero w = omega arith
  pause_counts (suc n) w = wait_counts (suc n) w

  attempt_counts :
      (attempt : ℕ) (split : Bool) (messages : List Message) (waited : Option Err × World)
      → asked (attempt_after p attempt split messages waited).1 ≤ asked waited.1 + 1
  unfolding attempt_after
  attempt_counts attempt split messages (some e, w) = omega arith
  attempt_counts attempt split messages (none, w) = ask_counts messages w

  attempts_count :
      (left attempt : ℕ) (split : Bool) (messages : List Message) (r : Option LlmResponse)
      (e : Option Err) (w : World)
      → asked (attempts p left attempt split messages r e w).1 ≤ asked w + left
  unfolding attempts
  attempts_count zero attempt split messages r e w = omega arith
  attempts_count (suc left) attempt split messages r e w =
      let after = attempt_after p attempt split messages (pause p attempt w) in
      let one = attempt_counts attempt split messages (pause p attempt w) in
      let none_yet = pause_counts attempt w in
      elim (Step-cases after.0) [
        | inl (err, s) ↦ rw (s, attempts) (omega (arith, one, none_yet))
        | inr (inl (response, s)) ↦ rw (s, attempts) (omega (arith, one, none_yet))
        | inr (inr (split', messages', r', e', s)) ↦
            let more = attempts_count left (suc attempt) split' messages' r' e' after.1 in
            rw (s, attempts) (omega (arith, one, none_yet, more))
      ]

  bounded_counts :
      (budget : ℕ) (tools : List Text) (bounded : Option (List Message)) (w : World)
      → asked (send_bounded p budget tools bounded w).1 ≤ asked w + max_attempts
  unfolding send_bounded
  bounded_counts budget tools none w = omega arith
  bounded_counts budget tools (some messages) w =
      attempts_count max_attempts 0 (can_split_mapping tools messages) messages none none w

  -- One request asks the provider at most three times, whatever it answers: counted by any number
  -- of the world that one question raises by at most one and a wait does not raise.
  pub chat_counts :
      (d : Decoder) (source_budget : ℕ) (tools : List Text) (messages : List Message) (w : World)
      → asked (chat p d source_budget tools messages w).1 ≤ asked w + max_attempts
  unfolding chat
  chat_counts d source_budget tools messages w =
      bounded_counts (budget_of source_budget) tools (bound_tool_history d messages source_budget) w
