-- ===== src/PdfSource/Run/Rules.antt =====
-- A rule for each way to build code, for what it gives.
use dzzzr_cli.Base.{◌≡◌, refl, subst, Bool, true, false, inl, inr, ◌⊎◌, Text, if◌then◌else◌}
use dzzzr_cli.PdfSource.Run.{
  Run, pure, fail, lift, with_label, labelled, require, ◌>>=◌, ◌>>◌, Gives,
}

inr-inj : {A B : Type 0} (a b : B) → ◌≡◌ {A = A ⊎ B} (inr a) (inr b) → a ≡ b
inr-inj a b h = cc h

module _ {S A : Type 0} {P : S → Type 0} {Q : A → Type 0} where
  pub Gives-pure : (a : A) → Q a → Gives P Q (pure a)
  Gives-pure a q = record {
    at = λ s h a' s' e.
        let same : a ≡ a' = cc e in let same' : s ≡ s' = cc e in (subst Q same q, subst P same' h);
  }

  pub Gives-fail : (err : Text) → Gives P Q (fail {S = S} {A = A} err)
  Gives-fail err = record { at = λ s h a s' e. cc e }

  pub Gives-labelled : (label : Text) (m : Run S A) → Gives P Q m → Gives P Q (labelled label m)
  unfolding with_label
  Gives-labelled label m g = record { at = λ s h a s' e. g.at s h a s' (unlabelled (m s) e) }
    where
      unlabelled :
          {a : A} {s' : S} (r : Text ⊎ (A × S)) → with_label label r ≡ inr (a, s') → r ≡ inr (a, s')
      unlabelled (inl err) e = cc e
      unlabelled (inr x) e = e

  pub Gives-if :
      (b : Bool) (m n : Run S A)
      → (b ≡ true → Gives P Q m)
      → (b ≡ false → Gives P Q n)
      → Gives P Q (if b then m else n)
  Gives-if true m n gm gn = gm refl
  Gives-if false m n gm gn = gn refl

  pub Gives-lifted : (r : Text ⊎ A) → ((a : A) → r ≡ inr a → Q a) → Gives P Q (lift {S = S} r)
  Gives-lifted (inl err) q = record { at = λ s h a s' e. cc e }
  Gives-lifted (inr b) q = record {
    at = λ s h a s' e.
        let same : b ≡ a = cc e in
        let same' : s ≡ s' = cc e in (subst Q same (q b refl), subst P same' h);
  }

module _ {S A B : Type 0} {P : S → Type 0} {Q : A → Type 0} {R : B → Type 0} where
  pub Gives-bind :
      (m : Run S A) (f : A → Run S B)
      → Gives P Q m
      → ((a : A) → Q a → Gives P R (f a))
      → Gives P R (m >>= f)
  unfolding ◌>>=◌
  Gives-bind m f gm gf = record { at = λ s h b s' e. go s h (m s) refl b s' e }
    where
      go :
          (s : S)
          → P s
          → (r : Text ⊎ (A × S)) → m s ≡ r
          → (b : B) (s' : S) → (m >>= f) s ≡ inr (b, s')
          → R b × P s'
      go s h (inl err) e b s' k = cc (rw e at k)
      go s h (inr (a, s1)) e b s' k =
          let (q, p) = gm.at s h a s1 e in (gf a q).at s1 p b s' (rw e at k)

module _ {S B : Type 0} {P : S → Type 0} {R : B → Type 0} where
  pub Gives-require :
      (b : Bool) (err : Text) (k : Run S B)
      → (b ≡ true → Gives P R k)
      → Gives P R (require b err >> k)
  unfolding ◌>>=◌
  Gives-require true err k g = record { at = λ s h b s' e. (g refl).at s h b s' e }
  Gives-require false err k g = record { at = λ s h b s' e. cc e }

module _ {S A B : Type 0} {P : S → Type 0} {R : B → Type 0} where
  pub Gives-lift :
      (r : Text ⊎ A) (f : A → Run S B)
      → ((a : A) → r ≡ inr a → Gives P R (f a))
      → Gives P R (lift r >>= f)
  unfolding ◌>>=◌
  Gives-lift (inl err) f g = record { at = λ s h b s' e. cc e }
  Gives-lift (inr a) f g = record { at = λ s h b s' e. (g a refl).at s h b s' e }
