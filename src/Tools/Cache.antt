-- ===== src/Tools/Cache.antt =====
-- agenttools/cache.go. A cache that is not there (`ttl <= 0`) is `none`; `now` is what the clock
-- says when the operation runs. Each method runs under the cache's mutex, as one step.
use dzzzr_cli.Base.{
  ℕ, ◌-◌, ◌≤◌, ◌≡◌, refl, Bool, true, false, Option, none, some, ◌++◌, arith, ltb, if◌then◌else◌,
  Text, codes, text_eq, text_eq_refl,
}

pub record Entry (Value : Type 0) : Type 0 where
  pub value : Value
  pub stored_at : ℕ

pub record ReadCache (Value : Type 0) : Type 0 where
  pub ttl : ℕ
  pub entries : Text → Option (Entry Value)

-- `cacheKey`: `encoded` is what `json.Marshal` gives for the arguments, `none` on its error.
unfoldable pub cache_key : Text → Bool → Option Text → Option Text
cache_key tool true encoded = some tool
cache_key tool false none = none
cache_key tool false (some json) = some (tool ++ (codes "|" ++ json))

module _ {Value : Type 0} where
  unfoldable pub new_read_cache : ℕ → Option (ReadCache Value)
  new_read_cache ttl = if ltb 0 ttl then some (record { ttl = ttl; entries = λ k. none }) else none

  abbrev set_entry : ReadCache Value → Text → Option (Entry Value) → ReadCache Value
  set_entry c key e = record c { entries = λ k. if text_eq key k then e else c.entries k }

  unfoldable pub get_entry :
      ReadCache Value → Text → ℕ → Option (Entry Value) → Option Value × ReadCache Value
  get_entry c key now none = (none, c)
  get_entry c key now (some e) =
      if ltb c.ttl (now - e.stored_at) then (none, set_entry c key none) else (some e.value, c)

  -- An entry that is too old is removed. The clock does not run backwards.
  unfoldable pub get : Option (ReadCache Value) → Text → ℕ → Option Value × Option (ReadCache Value)
  unfolding get_entry
  get none key now = (none, none)
  get (some c) key now = let (v, c') = get_entry c key now (c.entries key) in (v, some c')

  unfoldable pub put : Option (ReadCache Value) → Text → Value → ℕ → Option (ReadCache Value)
  put none key v now = none
  put (some c) key v now = some (set_entry c key (some (record { value = v; stored_at = now })))

  unfoldable pub clear : Option (ReadCache Value) → Option (ReadCache Value)
  clear none = none
  clear (some c) = some (record c { entries = λ k. none })

  -- What was put is found for as long as its time to live, and then no longer.
  pub get-put :
      (c : ReadCache Value) (key : Text) (v : Value) (then_at now : ℕ)
      → then_at ≤ now
      → (get (put (some c) key v then_at) key now).0
        ≡ (if ltb c.ttl (now - then_at) then none else some v)
  unfolding get put
  get-put c key v then_at now h = ground (arith, text_eq_refl key)

  pub get-clear :
      (c : Option (ReadCache Value)) (key : Text) (now : ℕ) → (get (clear c) key now).0 ≡ none
  unfolding get clear
  get-clear none key now = refl
  get-clear (some c) key now = refl
