-- ===== src/Tools/Policy.antt =====
-- agenttools/policy.go: who may change the game. `Args` are a call's arguments and `World` is all
-- that a call may change outside the program: the engine, the clock, the user who answers.
use dzzzr_cli.Base.{
  ◌≡◌, ◌≢◌, refl, inl, inr, ◌⊎◌, Bool, true, false, ◌||◌, Option, none, some, [], ◌∷◌, ◌++◌,
  if◌then◌else◌, Text, codes, text_eq, eq_of-text_eq, is_empty, Bool-cases,
}

abbrev pub policy_readonly : Text
policy_readonly = codes "readonly"

abbrev pub policy_approve : Text
policy_approve = codes "approve"

abbrev pub policy_full : Text
policy_full = codes "full"

abbrev pub default_policy : Text
default_policy = policy_approve

-- `ParsePolicy`; `none` is the error.
unfoldable pub parse_policy : Text → Option Text
parse_policy s =
    if is_empty s
    then some default_policy
    else if text_eq s policy_readonly || (text_eq s policy_approve || text_eq s policy_full)
    then some s
    else none

unfoldable pub normalized : Text → Text
normalized p = if is_empty p then default_policy else p

-- A confirmer answers yes or no, or fails; asking it may change the world.
abbrev pub Confirmer : Type 0 → Type 0 → Type 0
Confirmer Args World = Text → Args → World → Bool × Option Text × World

pub record Gate (Args World : Type 0) : Type 0 where
  pub policy : Text
  pub confirmer : Option (Confirmer Args World)

-- What `authorize` returns: allowed, or a refusal written for the model.
pub data Verdict : Type 0 where
  allowed : Verdict
  refused : Text → Verdict

module _ {World : Type 0} where
  unfoldable pub read_answer : Text → Bool × Option Text × World → Verdict × World
  read_answer tool (ok, some err, w) = (
    refused (
        tool
        ++ (codes " was not authorized: "
            ++ (err ++ codes ". Do not retry it; ask what to do instead."))),
    w,
  )
  read_answer tool (true, none, w) = (allowed, w)
  read_answer tool (false, none, w) = (
    refused (
        codes "The user declined " ++ (tool ++ codes ". Do not retry it; ask what to do instead.")),
    w,
  )

  read_answer_allowed :
      (tool : Text) (r : Bool × Option Text × World)
      → (read_answer tool r).0 ≡ allowed
      → (r.0 ≡ true) × (r.1 ≡ none)
  unfolding read_answer
  read_answer_allowed tool (ok, some err, w) h = cc h
  read_answer_allowed tool (true, none, w) h = (refl, refl)
  read_answer_allowed tool (false, none, w) h = cc h

normalized_full : (p : Text) → text_eq (normalized p) policy_full ≡ true → p ≡ policy_full
unfolding normalized text_eq
normalized_full [] e = cc e
normalized_full (c ∷ p) e = eq_of-text_eq (c ∷ p) policy_full e

module _ {Args World : Type 0} where
  -- The confirmer of the call's context comes before the catalog's own.
  unfoldable pub choose_confirmer :
      Option (Confirmer Args World) → Gate Args World → Option (Confirmer Args World)
  choose_confirmer (some c) g = some c
  choose_confirmer none g = g.confirmer

  unfoldable pub ask : Option (Confirmer Args World) → Text → Args → World → Verdict × World
  ask none tool args w =
      (refused (tool ++ codes " cannot be authorized: no confirmation channel is available."), w)
  ask (some confirm) tool args w = read_answer tool (confirm tool args w)

  unfoldable pub authorize :
      Option (Confirmer Args World) → Gate Args World → Text → Args → World → Verdict × World
  authorize context g tool args w =
      let asked = ask (choose_confirmer context g) tool args w in
      if text_eq (normalized g.policy) policy_full
      then (allowed, w)
      else if text_eq (normalized g.policy) policy_readonly
      then (
        refused (
            tool
            ++ codes
                " is not available: the session is read-only. Describe the action for the user instead of performing it."),
        w,
      )
      else asked

  -- Under the read-only policy nothing is asked and nothing is allowed.
  pub authorize_readonly :
      (context : Option (Confirmer Args World)) (g : Gate Args World) (tool : Text) (args : Args)
      (w : World)
      → g.policy ≡ policy_readonly
      → ((authorize context g tool args w).0 ≢ allowed) × ((authorize context g tool args w).1 ≡ w)
  unfolding authorize normalized text_eq
  authorize_readonly context g tool args w e = rw e ((λ h. cc h), refl)

  -- The confirmer that is asked said yes, without an error.
  abbrev pub SaidYes : Option (Confirmer Args World) → Text → Args → World → Type 0
  SaidYes chosen tool args w =
      (confirm : Confirmer Args World) × (chosen ≡ some confirm)
      × ((confirm tool args w).0 ≡ true)
      × ((confirm tool args w).1 ≡ none)

  ask_allowed :
      (chosen : Option (Confirmer Args World)) (tool : Text) (args : Args) (w : World)
      → (ask chosen tool args w).0 ≡ allowed
      → SaidYes chosen tool args w
  unfolding ask
  ask_allowed none tool args w h = cc h
  ask_allowed (some confirm) tool args w h =
      let (yes_said, no_error) = read_answer_allowed tool (confirm tool args w) h in
      (confirm, refl, yes_said, no_error)

  -- A call is allowed only under the full policy or by a confirmer's yes.
  pub authorize_allowed :
      (context : Option (Confirmer Args World)) (g : Gate Args World) (tool : Text) (args : Args)
      (w : World)
      → (authorize context g tool args w).0 ≡ allowed
      → (g.policy ≡ policy_full) ⊎ SaidYes (choose_confirmer context g) tool args w
  unfolding authorize
  authorize_allowed context g tool args w h =
      elim (Bool-cases (text_eq (normalized g.policy) policy_full)) [
        | inl full ↦ inl (normalized_full g.policy full)
        | inr rest ↦ elim (Bool-cases (text_eq (normalized g.policy) policy_readonly)) [
          | inl ro ↦ cc (rw (rest, ro) at h)
          | inr other ↦
              inr (ask_allowed (choose_confirmer context g) tool args w (rw (rest, other) at h))
        ]
      ]
