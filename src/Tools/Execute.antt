-- ===== src/Tools/Execute.antt =====
-- agenttools/tool.go, `Execute`, with the renewal of a rejected session, and `Tools` of catalog.go.
-- What a tool runs, the JSON encoder and the clock are parameters; a run may change the world.
pub mod Safety
pub mod Reads
use dzzzr_cli.Base.{
  ℕ, ◌+◌, ◌-◌, ◌≤◌, ◌≡◌, ◌≢◌, refl, sym, inl, inr, ◌⊎◌, Bool, true, false, not, ◌&&◌, Option, none,
  some, List, [], ◌∷◌, ◌++◌, arith, ltb, if◌then◌else◌, is_some, keep, Text, codes, text_eq,
  Bool-cases, Option-cases,
}
use dzzzr_cli.Tools.Policy.{Confirmer, Gate, Verdict, allowed, refused, authorize, policy_readonly}
use dzzzr_cli.Tools.Cache.{ReadCache, cache_key, get, put, clear}

-- An error, and whether it is `AuthSession`: the site rejected the session.
pub record Failure : Type 0 where
  pub text : Text
  pub is_session : Bool

pub record Result : Type 0 where
  pub content : Text
  pub is_error : Bool

-- What `json.Marshal` returns.
pub data Json : Type 0 where
  encoded : Text → Json
  not_encoded : Text → Json

-- The encoder for arguments and results, and the clock.
pub record Codec (Args Value World : Type 0) : Type 0 where
  pub no_args : Args → Bool
  pub marshal_args : Args → Option Text
  pub as_string : Value → Option Text
  pub marshal : Value → Json
  pub marshal_partial : Value → Text → Json
  pub is_nil : Value → Bool
  pub clock : World → ℕ

pub record Tool (Args Value World : Type 0) : Type 0 where
  pub name : Text
  pub mutating : Bool
  pub no_cache : Bool
  pub run : Args → World → Value × Option Failure × World
  pub gate : Gate Args World
  pub reauthenticate : Option (World → Option Text × World)

unfoldable pub encode_json : Text → Json → Result
encode_json name (encoded b) = record { content = b; is_error = false }
encode_json name (not_encoded e) = record {
  content = name ++ (codes ": cannot encode result: " ++ e);
  is_error = true;
}

unfoldable pub is_session_failure : Option Failure → Bool
is_session_failure none = false
is_session_failure (some f) = f.is_session

-- What a run leaves: its value, its error, the world and the cache.
pub record Ran (Value World : Type 0) : Type 0 where
  pub value : Value
  pub failure : Option Failure
  pub world : World
  pub cache : Option (ReadCache Value)

module _ {Args Value World : Type 0} where
  -- The tools that the model sees.
  unfoldable pub visible_tools : Text → List (Tool Args Value World) → List (Tool Args Value World)
  visible_tools policy all = keep (λ t. not (t.mutating && text_eq policy policy_readonly)) all

  unfoldable pub run_once :
      Tool Args Value World → Args → World → Option (ReadCache Value) → Ran Value World
  run_once t args w c =
      let (v, f, w') = t.run args w in record { value = v; failure = f; world = w'; cache = c }

  -- The session was renewed, or its renewal failed; a read is then run once more.
  unfoldable pub after_renewal :
      Tool Args Value World
      → Args
      → Value
      → Option (ReadCache Value)
      → Option Text × World
      → Ran Value World
  unfolding run_once
  after_renewal t args v c (some e, w) = record {
    value = v;
    failure = some (record { text = codes "session renewal failed: " ++ e; is_session = false });
    world = w;
    cache = c;
  }
  after_renewal t args v c (none, w) = run_once t args w c

  unfoldable pub renew :
      Tool Args Value World
      → Args
      → Option (World → Option Text × World)
      → Ran Value World
      → Ran Value World
  unfolding after_renewal
  renew t args none r = r
  renew t args (some reauth) r = after_renewal t args r.value (clear r.cache) (reauth r.world)

  unfoldable pub run_renewing :
      Tool Args Value World → Args → World → Option (ReadCache Value) → Ran Value World
  unfolding renew is_session_failure
  run_renewing t args w c =
      let r = run_once t args w c in
      if not t.mutating && is_session_failure r.failure then renew t args t.reauthenticate r else r

module _ {Args Value World : Type 0} (k : Codec Args Value World) where
  open k use {no_args, marshal_args, as_string, marshal, marshal_partial, is_nil, clock}

  unfoldable pub encode_value : Text → Value → Result
  unfolding encode_json
  encode_value name v = elim (as_string v) [
    | some s ↦ record { content = s; is_error = false }
    | none ↦ encode_json name (marshal v)
  ]

  abbrev pub Outcome : Type 0
  Outcome = Result × World × Option (ReadCache Value)

  -- The result of a run, stored under the key if there is one. A failed batch may have a value too.
  unfoldable pub report :
      Text → Option Text → Value → Option Failure → World → Option (ReadCache Value) → Outcome
  unfolding encode_value
  report name key v (some f) w c = (
    if is_nil v
        then record { content = name ++ (codes " failed: " ++ f.text); is_error = true }
        else record (encode_json name (marshal_partial v f.text)) { is_error = true },
    w,
    c,
  )
  report name none v none w c = (encode_value name v, w, c)
  report name (some key) v none w c = (encode_value name v, w, put c key v (clock w))

  -- The run itself, after authorization and the cache.
  unfoldable pub execute_run :
      Tool Args Value World → Args → Option Text → World → Option (ReadCache Value) → Outcome
  unfolding report
  execute_run t args key w c =
      let r = run_renewing t args w c in
      report t.name key r.value r.failure r.world (if t.mutating then clear r.cache else r.cache)

  -- What the cache said, and the cache that is left.
  unfoldable pub answer_or_run :
      Tool Args Value World
      → Args
      → Text
      → World
      → Option Value × Option (ReadCache Value)
      → Outcome
  unfolding execute_run encode_value
  answer_or_run t args key w (some v, c) = (encode_value t.name v, w, c)
  answer_or_run t args key w (none, c) = execute_run t args (some key) w c

  unfoldable pub execute_cached :
      Tool Args Value World → Args → Option Text → World → Option (ReadCache Value) → Outcome
  unfolding answer_or_run
  execute_cached t args none w c = execute_run t args none w c
  execute_cached t args (some key) w c = answer_or_run t args key w (get c key (clock w))

  unfoldable pub execute_authorized :
      Tool Args Value World → Args → Verdict × World → Option (ReadCache Value) → Outcome
  unfolding execute_run
  execute_authorized t args (refused why, w) c = (record { content = why; is_error = true }, w, c)
  execute_authorized t args (allowed, w) c = execute_run t args none w c

  -- `Execute`; `context` is the confirmer that the call's context carries.
  unfoldable pub execute :
      Tool Args Value World
      → Option (Confirmer Args World)
      → Args
      → World
      → Option (ReadCache Value)
      → Outcome
  unfolding execute_authorized execute_cached
  execute t context args w c =
      if t.mutating
      then execute_authorized t args (authorize context t.gate t.name args w) c
      else if t.no_cache
      then execute_run t args none w c
      else execute_cached t args (cache_key t.name (no_args args) (marshal_args args)) w c
