-- ===== src/Loop/Turns/Protocol.antt =====
-- What a turn adds to the conversation, and how many turns there are.
use dzzzr_cli.Base.{
  ℕ, zero, suc, ◌+◌, ◌≤◌, ◌≡◌, refl, subst, inl, inr, ◌⊎◌, Option, none, some, List, [], ◌∷◌, ◌++◌,
  arith, Text, codes, if◌then◌else◌, is_empty, itoa,
}
use dzzzr_cli.Loop.History.{ToolCall, Message}
use dzzzr_cli.Loop.Retry.{Err}
use dzzzr_cli.Loop.Turns.{
  ReturnedCall, Answer, LoopTool, Encoding, PreparedCall, Turn, stops, answers, goes_on, LoopResult,
  calls_of, tool_message, execute_named, prepend, calls_unless, turn_unless, run_calls, close_turn,
  run_prepared, prepare_all, prepare, both_prepared, decoded, or_empty, name_of, decoded_call,
  encoded_call, act_on, act_on_calls, run_turn, turns, run_tool_loop,
}

-- One tool message for each call, with the call's id, in the calls' order.
abbrev pub Answered : List ToolCall → List Message → Type 0
Answered [] [] = Unit
Answered [] (m ∷ ms) = ⊥
Answered (c ∷ cs) [] = ⊥
Answered (c ∷ cs) (m ∷ ms) = (m.role ≡ codes "tool") × (m.tool_call_id ≡ c.id) × Answered cs ms

module _ {Args : Type 0} (j : Encoding Args) where
  -- What the message to come says of a call that the model returned: its id or a new one, its name,
  -- and the encoding of its arguments.
  abbrev pub CarriesCall : ℕ → ℕ → ReturnedCall Args → ToolCall → Type 0
  CarriesCall turn i c t =
      (t.id
        ≡ (if is_empty c.id then codes "call-" ++ (itoa turn ++ (codes "-" ++ itoa i)) else c.id))
      × (t.name ≡ name_of j c c.function)
      × (args : Option Args) × (b : Text) × (decoded j c c.function ≡ inr args)
      × (j.encode (or_empty j args) ≡ inr b)
      × (t.function ≡ some (record { name = t.name; arguments = b }))

  -- All calls, each one once, in their order.
  abbrev pub Carries : ℕ → ℕ → List (ReturnedCall Args) → List ToolCall → Type 0
  Carries turn i [] [] = Unit
  Carries turn i [] (t ∷ ts) = ⊥
  Carries turn i (c ∷ cs) [] = ⊥
  Carries turn i (c ∷ cs) (t ∷ ts) = CarriesCall turn i c t × Carries turn (suc i) cs ts

  -- The conversation goes on by a message that carries what the model answered, and by an answer to
  -- each of its calls.
  abbrev pub Continues : ℕ → List Message → Answer Args ⊎ Err → List Message → Type 0
  Continues turn before reply after =
      (answer : Answer Args) × (asked : Message) × (results : List Message) × (reply ≡ inl answer)
      × (after ≡ before ++ (asked ∷ results))
      × (asked.role ≡ codes "assistant")
      × (asked.content ≡ answer.content)
      × Carries turn 0 answer.tool_calls asked.tool_calls
      × Answered asked.tool_calls results

  PreparedCarries : ℕ → ℕ → ReturnedCall Args → Err ⊎ PreparedCall Args → Type 0
  PreparedCarries turn i c (inl e) = Unit
  PreparedCarries turn i c (inr p) = CarriesCall turn i c p.call

  AllCarry : ℕ → ℕ → List (ReturnedCall Args) → Err ⊎ List (PreparedCall Args) → Type 0
  AllCarry turn i cs (inl e) = Unit
  AllCarry turn i cs (inr ps) = Carries turn i cs (calls_of ps)

  AllContinue : ℕ → List Message → Answer Args ⊎ Err → Turn → Type 0
  AllContinue turn before reply (stops e) = Unit
  AllContinue turn before reply (answers content) = Unit
  AllContinue turn before reply (goes_on after) = Continues turn before reply after

  prepare-PreparedCarries :
      (turn i : ℕ) (c : ReturnedCall Args) → PreparedCarries turn i c (prepare j turn i c)
  unfolding prepare PreparedCarries decoded_call encoded_call
  prepare-PreparedCarries turn i c = by_decoded (decoded j c c.function) refl
    where
      by_encoded :
          (a : Option Args) (r : Text ⊎ Text)
          → decoded j c c.function ≡ inr a
          → j.encode (or_empty j a) ≡ r
          → PreparedCarries turn i c
              (encoded_call j turn i c.id (name_of j c c.function) (or_empty j a) r)
      by_encoded a (inl err) d e = tt
      by_encoded a (inr b) d e = (refl, refl, a, b, d, e, refl)

      by_decoded :
          (r : Text ⊎ Option Args)
          → decoded j c c.function ≡ r
          → PreparedCarries turn i c (decoded_call j turn i c.id (name_of j c c.function) r)
      by_decoded (inl err) d = tt
      by_decoded (inr a) d = by_encoded a (j.encode (or_empty j a)) d refl

  both_prepared-AllCarry :
      (turn i : ℕ) (c : ReturnedCall Args) (cs : List (ReturnedCall Args))
      (p : Err ⊎ PreparedCall Args) (ps : Err ⊎ List (PreparedCall Args))
      → PreparedCarries turn i c p
      → AllCarry turn (suc i) cs ps
      → AllCarry turn i (c ∷ cs) (both_prepared j p ps)
  unfolding both_prepared PreparedCarries AllCarry calls_of
  both_prepared-AllCarry turn i c cs (inl e) ps h hs = tt
  both_prepared-AllCarry turn i c cs (inr p) (inl e) h hs = tt
  both_prepared-AllCarry turn i c cs (inr p) (inr ps) h hs = (h, hs)

  prepare_all-AllCarry :
      (turn i : ℕ) (cs : List (ReturnedCall Args)) → AllCarry turn i cs (prepare_all j turn i cs)
  unfolding prepare_all AllCarry calls_of
  prepare_all-AllCarry turn i [] = tt
  prepare_all-AllCarry turn i (c ∷ cs) =
      both_prepared-AllCarry turn i c cs _ _ (prepare-PreparedCarries turn i c)
        (prepare_all-AllCarry turn (suc i) cs)

AllAnswered : List ToolCall → Err ⊎ List Message → Type 0
AllAnswered cs (inl e) = Unit
AllAnswered cs (inr ms) = Answered cs ms

module _ {World : Type 0} where
  prepend-Answered :
      (c : ToolCall) (content : Text) (cs : List ToolCall) (rest : (Err ⊎ List Message) × World)
      → AllAnswered cs rest.0
      → AllAnswered (c ∷ cs) (prepend (tool_message c.id content) rest).0
  unfolding AllAnswered prepend
  prepend-Answered c content cs (inl e, w) a = tt
  prepend-Answered c content cs (inr ms, w) a = (refl, refl, a)

  unless-Answered :
      (done : Option Err) (w : World) (cs : List ToolCall) (rest : (Err ⊎ List Message) × World)
      → AllAnswered cs rest.0
      → AllAnswered cs (calls_unless done w rest).0
  unfolding AllAnswered calls_unless
  unless-Answered (some e) w cs rest a = tt
  unless-Answered none w cs rest a = a

module _ {Args World : Type 0} (j : Encoding Args) (list : List (LoopTool Args World))
    (ctx_err : World → Option Err) (ask : List Message → World → (Answer Args ⊎ Err) × World) where
  run_calls-Answered :
      (cs : List (PreparedCall Args)) (w : World)
      → AllAnswered (calls_of cs) (run_calls j list ctx_err ask cs w).0
  unfolding AllAnswered run_calls calls_of
  run_calls-Answered [] w = tt
  run_calls-Answered (c ∷ cs) w =
      let (result, w') = execute_named list c.call.name c.args w in
      unless-Answered (ctx_err w) w (c.call ∷ calls_of cs)
        (prepend (tool_message c.call.id result.content) (run_calls j list ctx_err ask cs w'))
        (prepend-Answered c.call result.content (calls_of cs) (run_calls j list ctx_err ask cs w')
          (run_calls-Answered cs w'))

  unless-AllContinue :
      (turn : ℕ) (before : List Message) (reply : Answer Args ⊎ Err) (done : Option Err) (w : World)
      (next : Turn × World)
      → AllContinue j turn before reply next.0
      → AllContinue j turn before reply (turn_unless done w next).0
  unfolding AllContinue turn_unless
  unless-AllContinue turn before reply (some e) w next a = tt
  unless-AllContinue turn before reply none w next a = a

  module _ (turn : ℕ) (messages : List Message) where
    close_turn-AllContinue :
        (answer : Answer Args) (asked : Message) (done : (Err ⊎ List Message) × World)
        → asked.role ≡ codes "assistant"
        → asked.content ≡ answer.content
        → Carries j turn 0 answer.tool_calls asked.tool_calls
        → AllAnswered asked.tool_calls done.0
        → AllContinue j turn messages
            (inl answer)
            (close_turn j list ctx_err ask messages asked done).0
    unfolding AllContinue AllAnswered close_turn
    close_turn-AllContinue answer asked (inl e, w) r same carried a = tt
    close_turn-AllContinue answer asked (inr ms, w) r same carried a =
        (answer, asked, ms, refl, refl, r, same, carried, a)

    run_prepared-AllContinue :
        (answer : Answer Args) (calls : Err ⊎ List (PreparedCall Args)) (w : World)
        → AllCarry j turn 0 answer.tool_calls calls
        → AllContinue j turn messages
            (inl answer)
            (run_prepared j list ctx_err ask messages answer.content calls w).0
    unfolding AllContinue AllCarry run_prepared
    run_prepared-AllContinue answer (inl e) w carried = tt
    run_prepared-AllContinue answer (inr calls) w carried =
        close_turn-AllContinue answer _ (run_calls j list ctx_err ask calls w) refl refl carried
          (run_calls-Answered calls w)

    act_on_calls-AllContinue :
        (content : Text) (cs : List (ReturnedCall Args)) (w : World)
        → AllContinue j turn messages
            (inl (record { content = content; tool_calls = cs }))
            (act_on_calls j list ctx_err ask turn messages content cs w).0
    unfolding AllContinue act_on_calls
    act_on_calls-AllContinue content [] w = tt
    act_on_calls-AllContinue content (c ∷ cs) w =
        run_prepared-AllContinue (record { content = content; tool_calls = c ∷ cs })
          (prepare_all j turn 0 (c ∷ cs)) w (prepare_all-AllCarry j turn 0 (c ∷ cs))

    act_on-AllContinue :
        (reply : (Answer Args ⊎ Err) × World)
        → AllContinue j turn messages reply.0 (act_on j list ctx_err ask turn messages reply).0
    unfolding AllContinue act_on
    act_on-AllContinue (inr e, w) = tt
    act_on-AllContinue (inl answer, w) = act_on_calls-AllContinue answer.content answer.tool_calls w

  -- A turn after which the loop goes on had an answer of the model, and has added to the conversation
  -- one message with this answer's text and all of its calls, each with its id (or the turn's new id,
  -- where it has none), its name and its decoded arguments encoded; and then, in the order of these
  -- calls, one tool message for each of them, which carries that call's id.
  pub run_turn-Continues :
      (turn : ℕ) (messages : List Message) (w : World) (after : List Message)
      → (run_turn j list ctx_err ask turn messages w).0 ≡ goes_on after
      → Continues j turn messages (ask messages w).0 after
  unfolding run_turn AllContinue
  run_turn-Continues turn messages w after h =
      subst (AllContinue j turn messages (ask messages w).0) h (
        unless-AllContinue turn messages (ask messages w).0 (ctx_err w) w
          (act_on j list ctx_err ask turn messages (ask messages w))
          (act_on-AllContinue turn messages (ask messages w)))

  AtMost : ℕ → LoopResult ⊎ Err → Type 0
  AtMost n (inl r) = r.iterations ≤ n
  AtMost n (inr e) = Unit

  Turn-cases :
      (t : Turn)
      → ((e : Err) × (t ≡ stops e))
        ⊎ (((content : Text) × (t ≡ answers content))
            ⊎ ((after : List Message) × (t ≡ goes_on after)))
  Turn-cases (stops e) = inl (e, refl)
  Turn-cases (answers content) = inr (inl (content, refl))
  Turn-cases (goes_on after) = inr (inr (after, refl))

  AtMost-turns :
      (left turn : ℕ) (messages : List Message) (w : World)
      → AtMost (turn + left) (turns j list ctx_err ask left turn messages w).0
  unfolding AtMost turns
  AtMost-turns zero turn messages w = omega arith
  AtMost-turns (suc left) turn messages w =
      let out = run_turn j list ctx_err ask turn messages w in
      elim (Turn-cases out.0) [
        | inl (e, s) ↦ rw (s, turns) tt
        | inr (inl (content, s)) ↦ rw (s, turns) (omega arith)
        | inr (inr (after, s)) ↦
            let more = AtMost-turns left (suc turn) after out.1 in
            rw (s, turns)
              (subst (λ n. AtMost n (turns j list ctx_err ask left (suc turn) after out.1).0)
                (omega arith) more)
      ]

  -- A run that returns, with or without an answer, has taken no more turns than it may take.
  pub run_tool_loop_bound :
      (max_turns : ℕ) (messages : List Message) (w : World) (r : LoopResult)
      → (run_tool_loop j list ctx_err ask max_turns messages w).0 ≡ inl r
      → r.iterations ≤ max_turns
  unfolding run_tool_loop AtMost
  run_tool_loop_bound max_turns messages w r h =
      let most = subst (AtMost (0 + max_turns)) h (AtMost-turns max_turns 0 messages w) in
      omega (arith, most)
