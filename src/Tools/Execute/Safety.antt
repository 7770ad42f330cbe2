-- ===== src/Tools/Execute/Safety.antt =====
-- What a call may run, how often, and what the cache still knows afterwards.
use dzzzr_cli.Base.{
  ℕ, ◌≡◌, ◌≢◌, refl, ap, ◌∙◌, inl, inr, ◌⊎◌, true, false, Option, none, some, List, [], ◌∷◌, arith,
  Text, text_eq, any, keep,
}
use dzzzr_cli.Tools.Policy.{
  Confirmer, Verdict, allowed, refused, authorize, authorize_readonly, authorize_allowed, SaidYes,
  choose_confirmer, policy_readonly, policy_full,
}
use dzzzr_cli.Tools.Cache.{ReadCache, get, clear, get-clear}
use dzzzr_cli.Tools.Execute.{
  Failure, Codec, Tool, run_once, run_renewing, report, execute_run, execute_authorized, execute,
  visible_tools,
}

module _ {Args Value World : Type 0} where
  -- The tools shown under the read-only policy do not mutate.
  pub visible_tools_readonly :
      (all : List (Tool Args Value World))
      → any (λ t. t.mutating) (visible_tools policy_readonly all) ≡ false
  unfolding visible_tools keep any text_eq
  visible_tools_readonly [] = refl
  visible_tools_readonly (t ∷ all) = ground (arith, visible_tools_readonly all)

  run_renewing_mutating :
      (t : Tool Args Value World) (args : Args) (w : World) (c : Option (ReadCache Value))
      → t.mutating ≡ true
      → (run_renewing t args w c).world ≡ (t.run args w).2
  unfolding run_renewing run_once
  run_renewing_mutating t args w c m = simp m

module _ {Args Value World : Type 0} (k : Codec Args Value World) where
  pub report-world :
      (name : Text) (key : Option Text) (v : Value) (f : Option Failure) (w : World)
      (c : Option (ReadCache Value))
      → (report k name key v f w c).1 ≡ w
  unfolding report
  report-world name key v (some f) w c = refl
  report-world name none v none w c = refl
  report-world name (some key) v none w c = refl

  -- With no key nothing is stored.
  report_unkeyed :
      (name : Text) (v : Value) (f : Option Failure) (w : World) (c : Option (ReadCache Value))
      → (report k name none v f w c).2 ≡ c
  unfolding report
  report_unkeyed name v (some f) w c = refl
  report_unkeyed name v none w c = refl

  -- The call is refused: neither the world beyond the question nor the cache is touched.
  abbrev pub Refused :
      Tool Args Value World
      → Option (Confirmer Args World)
      → Args
      → World
      → Option (ReadCache Value)
      → Type 0
  Refused t context args w c =
      let asked = authorize context t.gate t.name args w in
      let done = execute k t context args w c in
      (done.0.is_error ≡ true) × (done.1 ≡ asked.1) × (done.2 ≡ c)

  -- The call is carried out, after the full policy or a confirmer's yes.
  abbrev pub Carried :
      Tool Args Value World
      → Option (Confirmer Args World)
      → Args
      → World
      → Option (ReadCache Value)
      → Type 0
  Carried t context args w c =
      let asked = authorize context t.gate t.name args w in
      let done = execute k t context args w c in
      ((t.gate.policy ≡ policy_full) ⊎ SaidYes (choose_confirmer context t.gate) t.name args w)
      × (done.1 ≡ (t.run args asked.1).2)
      × ((key : Text) (now : ℕ) → (get done.2 key now).0 ≡ none)

  execute_run_mutating :
      (t : Tool Args Value World) (args : Args) (w : World) (c : Option (ReadCache Value))
      → t.mutating ≡ true
      → ((execute_run k t args none w c).1 ≡ (t.run args w).2)
        × ((key : Text) (now : ℕ) → (get (execute_run k t args none w c).2 key now).0 ≡ none)
  unfolding execute_run
  execute_run_mutating t args w c m =
      let r = run_renewing t args w c in
      let kept = report_unkeyed t.name r.value r.failure r.world (clear r.cache) in
      simp m (
        report-world t.name none r.value r.failure r.world (clear r.cache)
            ∙ run_renewing_mutating t args w c m,
        λ key now. ap (λ x. (get x key now).0) kept ∙ get-clear r.cache key now,
      )

  execute_authorized_cases :
      (t : Tool Args Value World) (args : Args) (v : Verdict) (w : World)
      (c : Option (ReadCache Value))
      → t.mutating ≡ true
      → ((v ≢ allowed)
          × ((execute_authorized k t args (v, w) c).0.is_error ≡ true)
          × ((execute_authorized k t args (v, w) c).1 ≡ w)
          × ((execute_authorized k t args (v, w) c).2 ≡ c))
        ⊎ ((v ≡ allowed)
            × ((execute_authorized k t args (v, w) c).1 ≡ (t.run args w).2)
            × ((key : Text) (now : ℕ)
                → (get (execute_authorized k t args (v, w) c).2 key now).0 ≡ none))
  unfolding execute_authorized
  execute_authorized_cases t args (refused why) w c m = inl ((λ h. cc h), refl, refl, refl)
  execute_authorized_cases t args allowed w c m =
      let (ran, empty) = execute_run_mutating t args w c m in inr (refl, ran, empty)

  -- A call of a mutating tool is refused, and then it is an error, leaves the world as the question
  -- left it and the cache as it was; or it was allowed by the full policy or by a confirmer's yes
  -- without an error, and then the tool ran exactly once on the world that the question left, and
  -- nothing that was cached is found any more, whether the run failed or not.
  pub execute_mutating :
      (t : Tool Args Value World) (context : Option (Confirmer Args World)) (args : Args)
      (w : World) (c : Option (ReadCache Value))
      → t.mutating ≡ true
      → Refused t context args w c ⊎ Carried t context args w c
  unfolding execute
  execute_mutating t context args w c m =
      let asked = authorize context t.gate t.name args w in
      simp m (elim (execute_authorized_cases t args asked.0 asked.1 c m) [
        | inl (denied_by, said, same, kept) ↦ inl (said, same, kept)
        | inr (yes_said, ran, empty) ↦
            inr (authorize_allowed context t.gate t.name args w yes_said, ran, empty)
      ])

  -- Under the read-only policy a mutating tool changes nothing, whatever the confirmers would say: the
  -- call is an error, and the world and the cache are as they were.
  pub execute_readonly :
      (t : Tool Args Value World) (context : Option (Confirmer Args World)) (args : Args)
      (w : World) (c : Option (ReadCache Value))
      → t.mutating ≡ true
      → t.gate.policy ≡ policy_readonly
      → ((execute k t context args w c).0.is_error ≡ true)
        × ((execute k t context args w c).1 ≡ w)
        × ((execute k t context args w c).2 ≡ c)
  unfolding execute
  execute_readonly t context args w c m ro =
      let asked = authorize context t.gate t.name args w in
      let (denied, still) = authorize_readonly context t.gate t.name args w ro in
      simp m (elim (execute_authorized_cases t args asked.0 asked.1 c m) [
        | inl (denied_by, said, same, kept) ↦ (said, same ∙ still, kept)
        | inr (yes_said, ran, empty) ↦ absurd (denied yes_said)
      ])
