-- ===== src/Loop/Retry.antt =====
-- agentloop/retry.go: which failures of a request may pass. An error is its text and what `errors.Is`
-- and `errors.As` find in its chain; `lower` stands for `strings.ToLower`.
use dzzzr_cli.Base.{
  Bool, true, false, ◌||◌, Option, none, some, List, [], ◌∷◌, if◌then◌else◌, Text, codes, any,
  contains_text,
}

pub data FailoverReason : Type 0 where
  rate_limit : FailoverReason
  network : FailoverReason
  timeout : FailoverReason
  overloaded : FailoverReason
  auth : FailoverReason
  billing : FailoverReason
  format : FailoverReason
  context_overflow : FailoverReason
  unknown_reason : FailoverReason

pub record Err : Type 0 where
  pub text : Text
  pub is_empty_response : Bool
  pub is_provider_response : Bool
  pub is_deadline : Bool
  pub is_canceled : Bool
  pub failover : Option FailoverReason

-- An error made by `errors.New`.
abbrev pub plain_error : Text → Err
plain_error t = record {
  text = t;
  is_empty_response = false;
  is_provider_response = false;
  is_deadline = false;
  is_canceled = false;
  failover = none;
}

abbrev pub err_empty_model_response : Err
err_empty_model_response =
    record (plain_error (
      codes
        "провайдер вернул пустой ответ без текста и вызовов инструментов; задача не завершена")) {
          is_empty_response = true;
        }

abbrev pub err_provider_response : Err
err_provider_response =
    record (plain_error
      (codes "провайдер прервал ответ (finish_reason=error); вызовы инструментов не выполнены")) {
        is_provider_response = true;
      }

abbrev pub permanent : List Text
permanent =
    codes "unknown provider"
    ∷ codes "invalid model"
    ∷ codes "model not found"
    ∷ codes "unauthorized"
    ∷ codes "forbidden"
    ∷ []

abbrev pub transient : List Text
transient =
    codes "context deadline exceeded"
    ∷ codes "http 429"
    ∷ codes "http 502"
    ∷ codes "http 503"
    ∷ codes "http 504"
    ∷ codes "connection reset"
    ∷ codes "eof"
    ∷ codes "rate limit"
    ∷ codes "rate_limit"
    ∷ codes "overloaded"
    ∷ codes "temporarily unavailable"
    ∷ codes "failover(network)"
    ∷ codes "failover(timeout)"
    ∷ []

unfoldable pub by_text : Text → Bool
by_text s =
    if any (λ p. contains_text p s) permanent then false else any (λ p. contains_text p s) transient

unfoldable pub by_reason : Option FailoverReason → Text → Bool
by_reason none s = by_text s
by_reason (some rate_limit) s = true
by_reason (some network) s = true
by_reason (some timeout) s = true
by_reason (some overloaded) s = true
by_reason (some auth) s = false
by_reason (some billing) s = false
by_reason (some format) s = false
by_reason (some context_overflow) s = false
by_reason (some unknown_reason) s = by_text s

unfoldable pub retryable : (Text → Text) → Err → Bool
retryable lower e =
    if e.is_empty_response || e.is_provider_response
    then true
    else by_reason e.failover (lower e.text)
