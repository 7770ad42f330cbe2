-- ===== src/Loop/Turns.antt =====
-- agentloop/tools.go: the registry of tools and runToolLoop. The model is asked through the
-- provider's interface; JSON, the schemas and the tools are parameters over a world. Status lines,
-- events and statistics are left out.
pub mod Protocol
use dzzzr_cli.Base.{
  ℕ, zero, suc, ◌+◌, ◌≡◌, refl, inl, inr, ◌⊎◌, Bool, true, false, Option, none, some, List, [], ◌∷◌,
  ◌++◌, if◌then◌else◌, Text, codes, text_eq, is_empty, itoa, find, any, is_some,
}
use dzzzr_cli.Tools.Execute.{Result}
use dzzzr_cli.Loop.History.{FunctionCall, ToolCall, Message}
use dzzzr_cli.Loop.Retry.{Err, plain_error}

-- A call as the model returns it.
pub record ReturnedCall (Args : Type 0) : Type 0 where
  pub id : Text
  pub name : Text
  pub function : Option FunctionCall
  pub arguments : Option Args

pub record Answer (Args : Type 0) : Type 0 where
  pub content : Text
  pub tool_calls : List (ReturnedCall Args)

-- A tool that returns, or panics.
pub data Executed : Type 0 where
  returned : Result → Executed
  panicked : Text → Executed

-- `check` is what the tool's schema says against the arguments.
pub record LoopTool (Args World : Type 0) : Type 0 where
  pub name : Text
  pub check : Args → Option Text
  pub run : Args → World → Executed × World

-- `decode` reads a text into the arguments that are there already; on the left is an error's text.
pub record Encoding (Args : Type 0) : Type 0 where
  pub decode : Text → Option Args → Text ⊎ Option Args
  pub encode : Args → Text ⊎ Text
  pub no_args : Args
  pub path_of : Args → Option Text

pub record PreparedCall (Args : Type 0) : Type 0 where
  pub call : ToolCall
  pub args : Args

-- Each name is new.
unfoldable pub first_duplicate : List Text → List Text → Option Text
first_duplicate seen [] = none
first_duplicate seen (n ∷ ns) =
    let rest = first_duplicate (n ∷ seen) ns in if any (text_eq n) seen then some n else rest

unfoldable pub recover : Text → Executed → Result
recover name (returned r) = r
recover name (panicked p) = record {
  content = codes "internal panic in tool " ++ (name ++ (codes ": " ++ p));
  is_error = true;
}

module _ {Args World : Type 0} where
  unfoldable pub tool_names : List (LoopTool Args World) → List Text
  tool_names [] = []
  tool_names (t ∷ ts) = t.name ∷ tool_names ts

  unfoldable pub registry_of :
      List (LoopTool Args World) → Option Text → Err ⊎ List (LoopTool Args World)
  registry_of list (some n) = inl (plain_error (codes "duplicate tool " ++ n))
  registry_of list none = inr list

  -- `newRegistry`; the schemas are resolved.
  unfoldable pub new_registry : List (LoopTool Args World) → Err ⊎ List (LoopTool Args World)
  unfolding tool_names first_duplicate registry_of
  new_registry [] = inl (plain_error (codes "agentloop: the agent has no tools"))
  new_registry (t ∷ ts) = registry_of (t ∷ ts) (first_duplicate [] (tool_names (t ∷ ts)))

  unfoldable pub run_checked : LoopTool Args World → Args → Option Text → World → Result × World
  unfolding recover
  run_checked t args (some err) w =
      (record { content = codes "неверные аргументы: " ++ err; is_error = true }, w)
  run_checked t args none w = let (x, w') = t.run args w in (recover t.name x, w')

  unfoldable pub run_found : Text → Option (LoopTool Args World) → Args → World → Result × World
  unfolding run_checked
  run_found name none args w =
      (record { content = codes "неизвестный инструмент: " ++ name; is_error = true }, w)
  run_found name (some t) args w = run_checked t args (t.check args) w

  -- `registry.execute`
  unfoldable pub execute_named : List (LoopTool Args World) → Text → Args → World → Result × World
  unfolding run_found
  execute_named list name args w = run_found name (find (λ t. text_eq t.name name) list) args w

module _ {Args : Type 0} (j : Encoding Args) where
  open j use {decode, encode, no_args, path_of}

  unfoldable pub name_of : ReturnedCall Args → Option FunctionCall → Text
  name_of c none = c.name
  name_of c (some f) = f.name

  unfoldable pub decoded : ReturnedCall Args → Option FunctionCall → Text ⊎ Option Args
  decoded c none = inr c.arguments
  decoded c (some f) =
      if is_empty f.arguments then inr c.arguments else decode f.arguments c.arguments

  unfoldable pub or_empty : Option Args → Args
  or_empty none = no_args
  or_empty (some a) = a

  unfoldable pub encoded_call : ℕ → ℕ → Text → Text → Args → Text ⊎ Text → Err ⊎ PreparedCall Args
  encoded_call turn i id name args (inl err) = inl (plain_error err)
  encoded_call turn i id name args (inr b) = inr (record {
    call = record {
      id = if is_empty id then codes "call-" ++ (itoa turn ++ (codes "-" ++ itoa i)) else id;
      name = name;
      function = some (record { name = name; arguments = b });
      path_argument = path_of args;
    };
    args = args;
  })

  unfoldable pub decoded_call : ℕ → ℕ → Text → Text → Text ⊎ Option Args → Err ⊎ PreparedCall Args
  unfolding encoded_call or_empty
  decoded_call turn i id name (inl err) =
      inl (plain_error (codes "неверные аргументы инструмента " ++ (name ++ (codes ": " ++ err))))
  decoded_call turn i id name (inr a) =
      encoded_call turn i id name (or_empty a) (encode (or_empty a))

  -- A call of a turn: its name, arguments and id are filled in.
  unfoldable pub prepare : ℕ → ℕ → ReturnedCall Args → Err ⊎ PreparedCall Args
  unfolding decoded_call name_of decoded
  prepare turn i c = decoded_call turn i c.id (name_of c c.function) (decoded c c.function)

  unfoldable pub both_prepared :
      Err ⊎ PreparedCall Args → Err ⊎ List (PreparedCall Args) → Err ⊎ List (PreparedCall Args)
  both_prepared (inl e) rest = inl e
  both_prepared (inr c) (inl e) = inl e
  both_prepared (inr c) (inr cs) = inr (c ∷ cs)

  -- The first call that cannot be prepared ends the run.
  unfoldable pub prepare_all : ℕ → ℕ → List (ReturnedCall Args) → Err ⊎ List (PreparedCall Args)
  unfolding prepare both_prepared
  prepare_all turn i [] = inr []
  prepare_all turn i (c ∷ cs) = both_prepared (prepare turn i c) (prepare_all turn (suc i) cs)

-- What a turn leads to.
pub data Turn : Type 0 where
  stops : Err → Turn
  answers : Text → Turn
  goes_on : List Message → Turn

pub record LoopResult : Type 0 where
  pub content : Text
  pub iterations : ℕ

abbrev pub tool_message : Text → Text → Message
tool_message id content = record {
  role = codes "tool";
  content = content;
  tool_calls = [];
  tool_call_id = id;
}

unfoldable pub calls_of : {Args : Type 0} → List (PreparedCall Args) → List ToolCall
calls_of [] = []
calls_of (c ∷ cs) = c.call ∷ calls_of cs

module _ {World : Type 0} where
  unfoldable pub prepend : Message → (Err ⊎ List Message) × World → (Err ⊎ List Message) × World
  prepend m (inl e, w) = (inl e, w)
  prepend m (inr ms, w) = (inr (m ∷ ms), w)

  -- A context that is done comes before what would follow.
  unfoldable pub calls_unless :
      Option Err → World → (Err ⊎ List Message) × World → (Err ⊎ List Message) × World
  calls_unless (some e) w next = (inl e, w)
  calls_unless none w next = next

  unfoldable pub turn_unless : Option Err → World → Turn × World → Turn × World
  turn_unless (some e) w next = (stops e, w)
  turn_unless none w next = next

module _ {Args World : Type 0} (j : Encoding Args) (list : List (LoopTool Args World))
    (ctx_err : World → Option Err) (ask : List Message → World → (Answer Args ⊎ Err) × World) where
  -- Each call is executed in turn, unless the context is done.
  unfoldable pub run_calls : List (PreparedCall Args) → World → (Err ⊎ List Message) × World
  unfolding execute_named prepend calls_unless
  run_calls [] w = (inr [], w)
  run_calls (c ∷ cs) w =
      let (result, w') = execute_named list c.call.name c.args w in
      let rest = run_calls cs w' in
      calls_unless (ctx_err w) w (prepend (tool_message c.call.id result.content) rest)

  unfoldable pub close_turn : List Message → Message → (Err ⊎ List Message) × World → Turn × World
  close_turn messages asked (inl e, w) = (stops e, w)
  close_turn messages asked (inr results, w) = (goes_on (messages ++ (asked ∷ results)), w)

  unfoldable pub run_prepared :
      List Message → Text → Err ⊎ List (PreparedCall Args) → World → Turn × World
  unfolding run_calls close_turn calls_of
  run_prepared messages content (inl e) w = (stops e, w)
  run_prepared messages content (inr calls) w =
      close_turn messages
        (record {
          role = codes "assistant";
          content = content;
          tool_calls = calls_of calls;
          tool_call_id = [];
        })
        (run_calls calls w)

  unfoldable pub act_on_calls :
      ℕ → List Message → Text → List (ReturnedCall Args) → World → Turn × World
  unfolding run_prepared prepare_all
  act_on_calls turn messages content [] w = (answers content, w)
  act_on_calls turn messages content (c ∷ cs) w =
      run_prepared messages content (prepare_all j turn 0 (c ∷ cs)) w

  unfoldable pub act_on : ℕ → List Message → (Answer Args ⊎ Err) × World → Turn × World
  unfolding act_on_calls
  act_on turn messages (inr e, w) =
      (stops (record e { text = codes "LLM call failed: " ++ e.text }), w)
  act_on turn messages (inl answer, w) =
      act_on_calls turn messages answer.content answer.tool_calls w

  unfoldable pub run_turn : ℕ → List Message → World → Turn × World
  unfolding act_on turn_unless
  run_turn turn messages w = turn_unless (ctx_err w) w (act_on turn messages (ask messages w))

  -- `left` turns are left; as many as `turn` were taken.
  unfoldable pub turns : ℕ → ℕ → List Message → World → (LoopResult ⊎ Err) × World
  unfolding run_turn
  turns zero turn messages w = (inl (record { content = []; iterations = turn }), w)
  turns (suc left) turn messages w =
      let (out, w') = run_turn turn messages w in
      elim out [
        | stops e ↦ (inr e, w')
        | answers content ↦ (inl (record { content = content; iterations = suc turn }), w')
        | goes_on messages' ↦ turns left (suc turn) messages' w'
      ]

  -- `runToolLoop`
  unfoldable pub run_tool_loop : ℕ → List Message → World → (LoopResult ⊎ Err) × World
  unfolding turns
  run_tool_loop max_turns messages w = turns max_turns 0 messages w
