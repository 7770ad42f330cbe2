-- ===== src/Tools/Execute/Reads.antt =====
-- What a call of a tool that only reads may do to the world.
use dzzzr_cli.Base.{
  ◌≡◌, refl, sym, ap, inl, inr, ◌⊎◌, Bool, true, false, subst, Option, none, some, if◌then◌else◌,
  Text, Bool-cases,
}
use dzzzr_cli.Tools.Policy.{Confirmer, authorize}
use dzzzr_cli.Tools.Cache.{ReadCache, cache_key, get, clear}
use dzzzr_cli.Tools.Execute.{
  Codec, Tool, encode_value, run_once, after_renewal, renew, run_renewing, is_session_failure,
  Outcome, execute_run, execute_cached, answer_or_run, execute_authorized, execute,
}
use dzzzr_cli.Tools.Execute.Safety.{report-world}

module _ {Args Value World : Type 0} where
  -- The world after the runs of one call: after a run; after a run that lost the session and the
  -- failed renewal of it; or after such a run, the renewal, and one more run.
  pub data RanFrom (t : Tool Args Value World) (args : Args) (w : World) : World → Type 0 where
    once : RanFrom t args w (t.run args w).2
    renewed :
        (reauth : World → Option Text × World)
        → t.mutating ≡ false
        → t.reauthenticate ≡ some reauth
        → is_session_failure (t.run args w).1 ≡ true
        → (err : Text) → (reauth (t.run args w).2).0 ≡ some err
        → RanFrom t args w (reauth (t.run args w).2).1
    twice :
        (reauth : World → Option Text × World)
        → t.mutating ≡ false
        → t.reauthenticate ≡ some reauth
        → is_session_failure (t.run args w).1 ≡ true
        → (reauth (t.run args w).2).0 ≡ none
        → RanFrom t args w (t.run args (reauth (t.run args w).2).1).2

  after_renewal-RanFrom :
      (t : Tool Args Value World) (args : Args) (w : World) (v : Value)
      (c : Option (ReadCache Value)) (reauth : World → Option Text × World)
      (r : Option Text × World)
      → t.mutating ≡ false
      → t.reauthenticate ≡ some reauth
      → is_session_failure (t.run args w).1 ≡ true
      → reauth (t.run args w).2 ≡ r
      → RanFrom t args w (after_renewal t args v c r).world
  unfolding after_renewal run_once
  after_renewal-RanFrom t args w v c reauth (some e, w1) m a lost h =
      subst (RanFrom t args w) (ap (λ (x : Option Text × World). x.1) h)
        (renewed reauth m a lost e (ap (λ (x : Option Text × World). x.0) h))
  after_renewal-RanFrom t args w v c reauth (none, w1) m a lost h =
      subst (λ x. RanFrom t args w (t.run args x).2) (ap (λ (x : Option Text × World). x.1) h)
        (twice reauth m a lost (ap (λ (x : Option Text × World). x.0) h))

  renew-RanFrom :
      (t : Tool Args Value World) (args : Args) (w : World) (c : Option (ReadCache Value))
      (reauth : Option (World → Option Text × World))
      → t.mutating ≡ false
      → t.reauthenticate ≡ reauth
      → is_session_failure (t.run args w).1 ≡ true
      → RanFrom t args w (renew t args reauth (run_once t args w c)).world
  unfolding renew run_once
  renew-RanFrom t args w c none m a lost = once
  renew-RanFrom t args w c (some reauth) m a lost =
      after_renewal-RanFrom t args w _ _ reauth (reauth (t.run args w).2) m a lost refl

  run_renewing-RanFrom :
      (t : Tool Args Value World) (args : Args) (w : World) (c : Option (ReadCache Value))
      → RanFrom t args w (run_renewing t args w c).world
  unfolding run_renewing run_once
  run_renewing-RanFrom t args w c = elim (Bool-cases t.mutating) [
    | inl m ↦ simp m once
    | inr r ↦ elim (Bool-cases (is_session_failure (t.run args w).1)) [
      | inl lost ↦ simp (r, lost) (renew-RanFrom t args w c t.reauthenticate r refl lost)
      | inr fine ↦ simp (r, fine) once
    ]
  ]

module _ {Args Value World : Type 0} (k : Codec Args Value World) where
  execute_run-RanFrom :
      (t : Tool Args Value World) (args : Args) (key : Option Text) (w : World)
      (c : Option (ReadCache Value))
      → RanFrom t args w (execute_run k t args key w c).1
  unfolding execute_run
  execute_run-RanFrom t args key w c =
      let r = run_renewing t args w c in
      let kept = if t.mutating then clear r.cache else r.cache in
      subst (RanFrom t args w) (sym (report-world k t.name key r.value r.failure r.world kept))
        (run_renewing-RanFrom t args w c)

  -- The cache has a value under the call's key, and the result is this value: the tool does not run,
  -- and the world stays.
  pub record FromCache (t : Tool Args Value World) (args : Args) (w : World)
      (c : Option (ReadCache Value)) (o : Outcome k) : Type 0 where
    pub is_cached : t.no_cache ≡ false
    pub key : Text
    pub value : Value
    pub left : Option (ReadCache Value)
    pub keyed : cache_key t.name (k.no_args args) (k.marshal_args args) ≡ some key
    pub found : get c key (k.clock w) ≡ (some value, left)
    pub answered : o ≡ (encode_value k t.name value, w, left)

  unfoldable Answered :
      Tool Args Value World → Args → World → Option (ReadCache Value) → Outcome k → Type 0
  Answered t args w c o = FromCache t args w c o ⊎ RanFrom t args w o.1

  if-Answered :
      (t : Tool Args Value World) (args : Args) (w : World) (c : Option (ReadCache Value))
      (b : Bool) (x y : Outcome k)
      → Answered t args w c x
      → (b ≡ false → Answered t args w c y)
      → Answered t args w c (if b then x else y)
  unfolding Answered
  if-Answered t args w c true x y p q = p
  if-Answered t args w c false x y p q = q refl

  module _ (t : Tool Args Value World) (args : Args) (w : World) (c : Option (ReadCache Value))
      (is_cached : t.no_cache ≡ false) where
    found-Answered :
        (key : Text) (found : Option Value × Option (ReadCache Value))
        → cache_key t.name (k.no_args args) (k.marshal_args args) ≡ some key
        → get c key (k.clock w) ≡ found
        → Answered t args w c (answer_or_run k t args key w found)
    unfolding Answered answer_or_run
    found-Answered key (some v, left) h g = inl (record {
      is_cached = is_cached;
      key = key;
      value = v;
      left = left;
      keyed = h;
      found = g;
      answered = refl;
    })
    found-Answered key (none, left) h g = inr (execute_run-RanFrom t args (some key) w left)

    cached-Answered :
        (key : Option Text)
        → cache_key t.name (k.no_args args) (k.marshal_args args) ≡ key
        → Answered t args w c (execute_cached k t args key w c)
    unfolding Answered execute_cached
    cached-Answered none h = inr (execute_run-RanFrom t args none w c)
    cached-Answered (some key) h = found-Answered key (get c key (k.clock w)) h refl

  -- A call of a tool that only reads either is answered by the cache: the tool may be cached, the cache
  -- has a value under the call's key at that moment, the result is this value, nothing runs and the
  -- world stays. Or it leaves the world after one run; or, only if that run lost the session and a
  -- renewal is set, the world after the renewal, where that fails, or after one more run, where it
  -- succeeds.
  pub execute_read-RanFrom :
      (t : Tool Args Value World) (context : Option (Confirmer Args World)) (args : Args)
      (w : World) (c : Option (ReadCache Value))
      → t.mutating ≡ false
      → FromCache t args w c (execute k t context args w c)
        ⊎ RanFrom t args w (execute k t context args w c).1
  unfolding execute Answered
  execute_read-RanFrom t context args w c m =
      let denied = execute_authorized k t args (authorize context t.gate t.name args w) c in
      let key = cache_key t.name (k.no_args args) (k.marshal_args args) in
      let direct = execute_run k t args none w c in
      let cached = execute_cached k t args key w c in
      let read = if t.no_cache then direct else cached in
      subst (Answered t args w c) (sym (ap (λ b. if b then denied else read) m)) (
        if-Answered t args w c t.no_cache direct cached (inr (execute_run-RanFrom t args none w c))
          (λ e. cached-Answered t args w c e key refl))
