-- ===== src/Tools/Confirmation.antt =====
-- agentmcp/confirm.go and `toolHandler` of agentmcp/server.go: a retried call carries the user's
-- answer. The fingerprint of the arguments and the JSON decoder's verdict are parameters.
use dzzzr_cli.Base.{
  ◌≡◌, refl, ap, ◌∙◌, inl, inr, ◌⊎◌, Bool, true, false, ◌&&◌, Option, none, some, [], ◌++◌, arith,
  if◌then◌else◌, Text, codes, text_eq, text_eq_refl, Bool-cases,
}
use dzzzr_cli.Tools.Policy.{
  Confirmer, Gate, authorize, ask, read_answer, choose_confirmer, policy_approve,
}
use dzzzr_cli.Tools.Cache.{ReadCache}
use dzzzr_cli.Tools.Execute.{Result, Codec, Tool, execute}
use dzzzr_cli.Tools.Execute.Safety.{execute_mutating}

-- What a client answers to one input request: to an elicitation, with the fields of its content that
-- have the type asked for, or something else.
pub data Response : Type 0 where
  elicited : (action : Text) (confirm : Option Bool) (call : Option Text) → Response
  other : Response

unfoldable pub accepted : Text → Option Bool → Bool
accepted action none = false
accepted action (some confirm) = confirm && text_eq action (codes "accept")

unfoldable pub call_of : Option Text → Text
call_of none = []
call_of (some call) = call

-- `answerFromRequest`: (answered, confirmed), from the response under the confirmation's id, if the
-- request has one, and the fingerprint of the call's arguments.
unfoldable pub answer_from_request : Option Response → Text → Bool × Bool
answer_from_request none print = (false, false)
answer_from_request (some other) print = (true, false)
answer_from_request (some (elicited action confirm call)) print =
    (true, accepted action confirm && text_eq (call_of call) print)

-- What the handler returns: a request for the user's input, or the call's result.
pub data Reply : Type 0 where
  input_required : Reply
  replied : Result → Reply

-- The response is an acceptance that names these very arguments.
abbrev pub Approves : Option Response → Text → Type 0
Approves response print =
    (action : Text) × (call : Option Text) × (response ≡ some (elicited action (some true) call))
    × (text_eq action (codes "accept") ≡ true)
    × (text_eq (call_of call) print ≡ true)

answer-Approves :
    (response : Option Response) (print : Text)
    → (answer_from_request response print).1 ≡ true
    → Approves response print
unfolding answer_from_request accepted
answer-Approves none print h = cc h
answer-Approves (some other) print h = cc h
answer-Approves (some (elicited action none call)) print h = cc h
answer-Approves (some (elicited action (some false) call)) print h = cc h
answer-Approves (some (elicited action (some true) call)) print h =
    elim (Bool-cases (text_eq action (codes "accept"))) [
      | inl said ↦ (action, call, refl, said, rw said at h)
      | inr mute ↦ cc (rw mute at h)
    ]

module _ {Args Value World : Type 0} (k : Codec Args Value World) (fingerprint : Args → Text) where
  abbrev pub Handled : Type 0
  Handled = Reply × World × Option (ReadCache Value)

  -- The user has already decided: the catalog's own gate is asked with that answer.
  abbrev pub decided_confirmer : Confirmer Args World
  decided_confirmer = λ tool args w. (true, none, w)

  unfoldable pub run_tool :
      Tool Args Value World
      → Option (Confirmer Args World)
      → Args
      → World
      → Option (ReadCache Value)
      → Handled
  run_tool t context args w c =
      let (result, w', c') = execute k t context args w c in (replied result, w', c')

  unfoldable pub handle_answered :
      Tool Args Value World → Args → Bool × Bool → World → Option (ReadCache Value) → Handled
  unfolding run_tool
  handle_answered t args (false, confirmed) w c = (input_required, w, c)
  handle_answered t args (true, false) w c = (
    replied (record {
      content =
          t.name
          ++ codes
              " was not authorized for these arguments. Do not retry it; ask what to do instead.";
      is_error = true;
    }),
    w,
    c,
  )
  handle_answered t args (true, true) w c = run_tool t (some decided_confirmer) args w c

  unfoldable pub needs_approval : Tool Args Value World → Bool
  needs_approval t = t.mutating && text_eq t.gate.policy policy_approve

  -- `toolHandler`; `inl` is what the JSON decoder says against the arguments, and `context` the
  -- confirmer that the request's context carried already.
  unfoldable pub tool_handler :
      Tool Args Value World
      → Option (Confirmer Args World)
      → Text ⊎ Args
      → Option Response
      → World
      → Option (ReadCache Value)
      → Handled
  unfolding handle_answered needs_approval run_tool
  tool_handler t context (inl err) response w c = (
    replied (record {
      content = t.name ++ (codes ": arguments are not a JSON object: " ++ err);
      is_error = true;
    }),
    w,
    c,
  )
  tool_handler t context (inr args) response w c =
      if needs_approval t
      then handle_answered t args (answer_from_request response (fingerprint args)) w c
      else run_tool t context args w c

  -- A decision that was made already changes nothing more.
  authorize_decided :
      (g : Gate Args World) (name : Text) (args : Args) (w : World)
      → (authorize (some decided_confirmer) g name args w).1 ≡ w
  unfolding authorize ask choose_confirmer read_answer
  authorize_decided g name args w = ground arith

  answered-Approves :
      (t : Tool Args Value World) (args : Args) (answer : Bool × Bool) (w : World)
      (c : Option (ReadCache Value))
      → t.mutating ≡ true
      → (((handle_answered t args answer w c).1 ≡ w) × ((handle_answered t args answer w c).2 ≡ c))
        ⊎ ((answer.1 ≡ true) × ((handle_answered t args answer w c).1 ≡ (t.run args w).2))
  unfolding handle_answered run_tool
  answered-Approves t args (false, confirmed) w c m = inl (refl, refl)
  answered-Approves t args (true, false) w c m = inl (refl, refl)
  answered-Approves t args (true, true) w c m =
      elim (execute_mutating k t (some decided_confirmer) args w c m) [
        | inl (said, same, kept) ↦ inl (same ∙ authorize_decided t.gate t.name args w, kept)
        | inr (why, ran, empty) ↦
            inr (refl, ran ∙ ap (λ x. (t.run args x).2) (authorize_decided t.gate t.name args w))
      ]

  needs_approval_lem :
      (t : Tool Args Value World)
      → t.mutating ≡ true
      → t.gate.policy ≡ policy_approve
      → needs_approval t ≡ true
  unfolding needs_approval
  needs_approval_lem t m p = simp (m, p) (text_eq_refl policy_approve)

  -- Under the approve policy a call of a mutating tool leaves the world and the cache as they were,
  -- unless its arguments were decoded and the request carries an acceptance that says yes and names
  -- these arguments' fingerprint; the tool has then run exactly once, on the world of the call.
  pub tool_handler-Approves :
      (t : Tool Args Value World) (context : Option (Confirmer Args World)) (sent : Text ⊎ Args)
      (response : Option Response) (w : World) (c : Option (ReadCache Value))
      → t.mutating ≡ true
      → t.gate.policy ≡ policy_approve
      → (((tool_handler t context sent response w c).1 ≡ w)
          × ((tool_handler t context sent response w c).2 ≡ c))
        ⊎ ((args : Args) × (sent ≡ inr args)
            × Approves response (fingerprint args)
            × ((tool_handler t context sent response w c).1 ≡ (t.run args w).2))
  unfolding tool_handler
  tool_handler-Approves t context (inl err) response w c m p = inl (refl, refl)
  tool_handler-Approves t context (inr args) response w c m p =
      let answer = answer_from_request response (fingerprint args) in
      let asks = needs_approval_lem t m p in
      simp asks (elim (answered-Approves t args answer w c m) [
        | inl (same, kept) ↦ inl (same, kept)
        | inr (yes_said, ran) ↦
            inr (args, refl, answer-Approves response (fingerprint args) yes_said, ran)
      ])
