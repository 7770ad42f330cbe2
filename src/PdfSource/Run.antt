-- ===== src/PdfSource/Run.antt =====
-- Code that may fail and changes a state: pdfsource/mapping.go keeps its counts and marks in local
-- variables. After an error the state is not used again, so an error has none.
pub mod Rules
use dzzzr_cli.Base.{◌≡◌, refl, Bool, true, false, inl, inr, ◌⊎◌, Text, codes, ◌++◌, if◌then◌else◌}

abbrev pub Run : Type 0 → Type 0 → Type 0
Run S A = S → Text ⊎ (A × S)

module _ {S A : Type 0} where
  abbrev pub pure : A → Run S A
  pure a s = inr (a, s)

  abbrev pub fail : Text → Run S A
  fail err s = inl err

  abbrev pub lift : Text ⊎ A → Run S A
  lift (inl err) s = inl err
  lift (inr a) s = inr (a, s)

  -- `fmt.Errorf("%s: %w", label, err)`
  unfoldable pub with_label : Text → Text ⊎ (A × S) → Text ⊎ (A × S)
  with_label label (inl err) = inl (label ++ (codes ": " ++ err))
  with_label label (inr r) = inr r

  abbrev pub labelled : Text → Run S A → Run S A
  labelled label m s = with_label label (m s)

abbrev pub require : {S : Type 0} → Bool → Text → Run S (Unit {0})
require true err s = inr (tt, s)
require false err s = inl err

module _ {S A B : Type 0} where
  abbrev pub continue : Text ⊎ (A × S) → (A → Run S B) → Text ⊎ (B × S)
  continue (inl err) f = inl err
  continue (inr (a, s)) f = f a s

  infixl 5 ◌>>=◌ ◌>>◌
  unfoldable pub ◌>>=◌ : Run S A → (A → Run S B) → Run S B
  ◌>>=◌ m f s = continue (m s) f

  abbrev pub ◌>>◌ : Run S A → Run S B → Run S B
  m >> k = m >>= λ _. k

-- From a state with `P`, a result has `Q` and the state after it `P`.
pub record Gives {S A : Type 0} (P : S → Type 0) (Q : A → Type 0) (m : Run S A) : Type 0 where
  pub at : (s : S) → P s → (a : A) (s' : S) → m s ≡ inr (a, s') → Q a × P s'
