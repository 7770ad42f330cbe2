-- ===== src/Loop/Chat/Attempts.antt =====
-- What a request answers with, and how often the provider is asked.
use dzzzr_cli.Base.{
  ℕ, zero, suc, ◌+◌, ◌≡◌, refl, subst, inl, inr, ◌⊎◌, Bool, true, false, ◌&&◌, ◌||◌, Option, none,
  some, List, ltb, Text, Bool-cases,
}
use dzzzr_cli.Loop.History.{Message}
use dzzzr_cli.Loop.Retry.{Err, retryable, err_empty_model_response}
use dzzzr_cli.Loop.Chat.{
  LlmResponse, Provider, Step, fails, breaks, continues, truncated_response, is_interrupted,
  is_aborted, is_empty_answer, reject_aborted, retry_or_fail, judge, finish, pause, attempt_after,
  attempts, max_attempts,
}

-- A response that may be acted on: complete, and with text or calls where its finish reason is `stop`
-- or absent. With another finish reason, `tool_calls` for one, it may have neither.
pub record IsUsable (r : LlmResponse) : Type 0 where
  pub complete : truncated_response r ≡ false
  pub uninterrupted : is_interrupted r ≡ false
  pub not_aborted : is_aborted r ≡ false
  pub not_empty : is_empty_answer r ≡ false

-- A reply whose response was not aborted.
abbrev Checked : Option LlmResponse × Option Err → Type 0
Checked (none, e) = Unit
Checked (some r, some e) = Unit
Checked (some r, none) = is_aborted r ≡ false

reject_aborted-Checked : (x : Option LlmResponse × Option Err) → Checked (reject_aborted x)
unfolding reject_aborted
reject_aborted-Checked (none, e) = tt
reject_aborted-Checked (some r, some e) = tt
reject_aborted-Checked (some r, none) = elim (Bool-cases (is_aborted r)) [
  | inl e ↦ rw e tt
  | inr e ↦ rw e e
]

-- What the loop would end with is no response.
abbrev Useless : Option LlmResponse → Option Err → Type 0
Useless r (some e) = Unit
Useless none none = Unit
Useless (some r) none = truncated_response r ≡ true

-- A step that ends the loop has a full answer, and one that goes on has none.
abbrev IsGood : Step → Type 0
IsGood (fails e) = Unit
IsGood (breaks r) = (is_aborted r ≡ false) × (is_empty_answer r ≡ false)
IsGood (continues split messages r e) = Useless r e

retry_or_fail-IsGood :
    (lower : Text → Text) (split : Bool) (messages : List Message) (r : Option LlmResponse)
    (e : Err)
    → IsGood (retry_or_fail lower split messages r e)
unfolding retry_or_fail
retry_or_fail-IsGood lower split messages r e = elim (Bool-cases (e.is_deadline || e.is_canceled)) [
  | inl h ↦ simp h tt
  | inr h ↦ elim (Bool-cases (retryable lower e)) [
    | inl k ↦ simp (h, k) tt
    | inr k ↦ simp (h, k) tt
  ]
]

judge-IsGood :
    (lower : Text → Text) (attempt : ℕ) (split : Bool) (messages : List Message)
    (x : Option LlmResponse × Option Err)
    → Checked x
    → IsGood (judge lower attempt split messages x)
unfolding judge
judge-IsGood lower attempt split messages (none, some e) c =
    retry_or_fail-IsGood lower split messages none e
judge-IsGood lower attempt split messages (some r, some e) c =
    retry_or_fail-IsGood lower split messages (some r) e
judge-IsGood lower attempt split messages (none, none) c =
    retry_or_fail-IsGood lower split messages none err_empty_model_response
judge-IsGood lower attempt split messages (some r, none) c =
    let may_split = split && ltb (attempt + 1) max_attempts in
    elim (Bool-cases (truncated_response r)) [
      | inl cut_off ↦ elim (Bool-cases may_split) [
        | inl again ↦ simp (cut_off, again) refl
        | inr last ↦ elim (Bool-cases (is_empty_answer r)) [
          | inl e ↦
              simp (cut_off, last, e)
                (retry_or_fail-IsGood lower split messages (some r) err_empty_model_response)
          | inr e ↦ simp (cut_off, last, e) (c, refl)
        ]
      ]
      | inr whole ↦ elim (Bool-cases (is_empty_answer r)) [
        | inl e ↦
            simp (whole, e)
              (retry_or_fail-IsGood lower split messages (some r) err_empty_model_response)
        | inr e ↦ simp (whole, e) (c, refl)
      ]
    ]

pub Step-cases :
    (s : Step)
    → ((e : Err) × (s ≡ fails e))
      ⊎ (((r : LlmResponse) × (s ≡ breaks r))
          ⊎ ((split : Bool) × (messages : List Message) × (r : Option LlmResponse) × (e : Option
                Err)
              × (s ≡ continues split messages r e)))
Step-cases (fails e) = inl (e, refl)
Step-cases (breaks r) = inr (inl (r, refl))
Step-cases (continues split messages r e) = inr (inr (split, messages, r, e, refl))

-- A useless end is an error.
finish-Useless :
    (r : Option LlmResponse) (e : Option Err) (out : LlmResponse)
    → Useless r e
    → finish r e ≡ inl out
    → IsUsable out
unfolding finish
finish-Useless r (some e) out u h = cc h
finish-Useless none none out u h = cc h
finish-Useless (some r) none out u h = cc (rw u at h)

finish-IsUsable :
    (r out : LlmResponse)
    → is_aborted r ≡ false
    → is_empty_answer r ≡ false
    → finish (some r) none ≡ inl out
    → IsUsable out
unfolding finish
finish-IsUsable r out a n h = elim (Bool-cases (truncated_response r)) [
  | inl t ↦ cc (rw t at h)
  | inr t ↦ elim (Bool-cases (is_interrupted r)) [
    | inl i ↦ cc (rw (t, i) at h)
    | inr i ↦
        let same : r ≡ out = cc (rw (t, i) at h) in
        subst IsUsable same
          (record { complete = t; uninterrupted = i; not_aborted = a; not_empty = n })
  ]
]

module _ {World : Type 0} (p : Provider World) where
  attempt_after-IsGood :
      (attempt : ℕ) (split : Bool) (messages : List Message) (waited : Option Err × World)
      → IsGood (attempt_after p attempt split messages waited).0
  unfolding attempt_after
  attempt_after-IsGood attempt split messages (some e, w) = tt
  attempt_after-IsGood attempt split messages (none, w) =
      judge-IsGood p.lower attempt split messages _ (reject_aborted-Checked _)

  pub attempts-IsUsable :
      (left attempt : ℕ) (split : Bool) (messages : List Message) (r : Option LlmResponse)
      (e : Option Err) (w : World) (out : LlmResponse)
      → Useless r e
      → (attempts p left attempt split messages r e w).0 ≡ inl out
      → IsUsable out
  unfolding attempts
  attempts-IsUsable zero attempt split messages r e w out u h = finish-Useless r e out u h
  attempts-IsUsable (suc left) attempt split messages r e w out u h =
      let after = attempt_after p attempt split messages (pause p attempt w) in
      let good = attempt_after-IsGood attempt split messages (pause p attempt w) in
      elim (Step-cases after.0) [
        | inl (err, s) ↦ cc (rw (s, attempts) at h)
        | inr (inl (response, s)) ↦
            let (a, n) = rw s at good in finish-IsUsable response out a n (rw (s, attempts) at h)
        | inr (inr (split', messages', r', e', s)) ↦
            attempts-IsUsable left (suc attempt) split' messages' r' e' after.1 out (rw s at good)
              (rw (s, attempts) at h)
      ]
