-- ===== src/StatStore/Disk/Laws.antt =====
-- What the documentation of `os` says of the directory, and the names of the files in it.
use dzzzr_cli.Base.{
  ℕ, ◌≡◌, refl, sym, ap, ◌∙◌, true, false, none, some, inl, inr, [], ◌∷◌, ◌++◌, arith, Text, codes,
  text_eq, eq_of-text_eq, Bool-cases,
}
use mathlib.Core.List.{append_cancel_right}
use dzzzr_cli.StatStore.Disk.{Directory, json_name, tmp_name}

module _ {W : Type 0} (d : Directory W) where
  unfoldable pub IsReadable : Text → Text → W → Type 0
  IsReadable name b w = (d.open_root w ≡ none) × (d.read_file name w ≡ inr b)

  -- A write, even one that fails, changes the file that it names only; so does removing, and a rename
  -- the two files that it names. A rename that fails changes nothing.
  pub record DirectoryLaws : Type 0 where
    pub make_root_keeps : (n b : Text) (w : W) → IsReadable n b w → IsReadable n b (d.make_root w).1
    pub write_keeps :
        (name c n b : Text) (w : W)
        → text_eq name n ≡ false
        → IsReadable n b w
        → IsReadable n b (d.write_file name c w).1
    pub write_reads :
        (name c : Text) (w : W)
        → d.open_root w ≡ none
        → (d.write_file name c w).0 ≡ none
        → IsReadable name c (d.write_file name c w).1
    pub rename_keeps :
        (from to n b : Text) (w : W)
        → text_eq from n ≡ false
        → text_eq to n ≡ false
        → IsReadable n b w
        → IsReadable n b (d.rename from to w).1
    pub rename_fails :
        (from to n b err : Text) (w : W)
        → (d.rename from to w).0 ≡ some err
        → IsReadable n b w
        → IsReadable n b (d.rename from to w).1
    pub rename_reads :
        (from to b : Text) (w : W)
        → (d.rename from to w).0 ≡ none
        → IsReadable from b w
        → IsReadable to b (d.rename from to w).1
    pub remove_keeps :
        (name n b : Text) (w : W)
        → text_eq name n ≡ false
        → IsReadable n b w
        → IsReadable n b (d.remove name w)

-- The last code of a text.
last_or : ℕ → Text → ℕ
last_or c [] = c
last_or c (x ∷ s) = last_or x s

last_or-append : (c : ℕ) (s : Text) (x : ℕ) (t : Text) → last_or c (s ++ (x ∷ t)) ≡ last_or x t
unfolding last_or
last_or-append c [] x t = refl
last_or-append c (y ∷ s) x t = last_or-append y s x t

pub tmp_name-json_name : (a b : Text) → text_eq (tmp_name a) (json_name b) ≡ false
unfolding tmp_name json_name last_or
tmp_name-json_name a b = elim (Bool-cases (text_eq (tmp_name a) (json_name b))) [
  | inr other ↦ other
  | inl same ↦
      let ends : 112 ≡ 110 =
        sym (last_or-append 0 a 46 (codes "tmp"))
        ∙ (ap (last_or 0) (eq_of-text_eq _ _ same) ∙ last_or-append 0 b 46 (codes "json")) in
      absurd (omega (arith, ends))
]

-- Two identifiers with one file are the same.
pub json_name-injective : (a b : Text) → text_eq (json_name a) (json_name b) ≡ true → a ≡ b
unfolding json_name
json_name-injective a b h = append_cancel_right a b (codes ".json") (eq_of-text_eq _ _ h)
