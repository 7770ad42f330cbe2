-- ===== src/StatStore/Logs.antt =====
-- statstore/store.go: a stored log. The settings are a type of their own, since the code only passes
-- them on; a name, the bytes of a log and its JSON are texts; versions are natural numbers.
use dzzzr_cli.Base.{ℕ, ◌≡◌, ◌⊎◌, inr, Option, Text}

pub record StoredLog (Config : Type 0) : Type 0 where
  pub id : Text
  pub name : Text
  pub content : Text
  pub config : Config
  pub revision : ℕ

-- `Build` gives the settings of its report; none is a nil `cfg`. The JSON encoder and decoder.
pub record Services (Config : Type 0) : Type 0 where
  pub build : Text → Text → Option Config → Text ⊎ Config
  pub encode : StoredLog Config → Text ⊎ Text
  pub decode : Text → Text ⊎ StoredLog Config

-- What was encoded decodes to itself.
pub record RoundTrips {Config : Type 0} (v : Services Config) : Type 0 where
  pub decode-encode : (l : StoredLog Config) (b : Text) → v.encode l ≡ inr b → v.decode b ≡ inr l

abbrev pub max_log_bytes : ℕ
max_log_bytes = 33554432
