-- ===== src/GameSource/Codes/Keys.antt =====
-- The codes of a level that validates are all different.
use dzzzr_cli.Base.{
  ℕ, ◌+◌, ◌≡◌, refl, sym, ap, ◌∙◌, subst, inl, inr, Bool, true, false, not, ◌&&◌, none, List, [],
  ◌∷◌, ◌++◌, arith, map, Text, text_eq, is_empty, trim_space, any, length, Bool-cases, Option-cases,
  &&-eq-true,
}
use dzzzr_cli.GameSource.Level.{LevelCode, BonusCode, FakeCode, SpoilerParams, LevelParams}
use dzzzr_cli.GameSource.Codes.{
  Outside, Seen, Check, ◌>>◌, report, lookup_path, key_of, synonyms_of, duplicate_errors,
  check_value, check_values, check_code, check_main, check_bonus, check_fake, check_spoilers,
  check_codes, validate_params,
}

pub append-eq-nil {ℓ} : {A : Type ℓ} (xs ys : List A) → (xs ++ ys) ≡ [] → (xs ≡ []) × (ys ≡ [])
append-eq-nil [] ys h = (refl, h)
append-eq-nil (x ∷ xs) ys h = cc h

-- Each key is not empty, and is neither among `seen` nor among those before it.
unfoldable pub apart : List Text → List Text → Bool
apart seen [] = true
apart seen (k ∷ ks) = not (is_empty k) && (not (any (text_eq k) seen) && apart (k ∷ seen) ks)

unfoldable onto : List Text → List Text → List Text
onto [] seen = seen
onto (k ∷ ks) seen = onto ks (k ∷ seen)

apart-append :
    (seen ks ks' : List Text)
    → apart seen ks ≡ true
    → apart (onto ks seen) ks' ≡ true
    → apart seen (ks ++ ks') ≡ true
unfolding apart onto
apart-append seen [] ks' h k = k
apart-append seen (x ∷ ks) ks' h k =
    let (full, rest) =
      &&-eq-true (not (is_empty x)) (not (any (text_eq x) seen) && apart (x ∷ seen) ks) h in
    let (fresh, later) = &&-eq-true (not (any (text_eq x) seen)) (apart (x ∷ seen) ks) rest in
    rw (full, fresh) (apart-append (x ∷ seen) ks ks' later k)

onto-append : (seen ks ks' : List Text) → onto (ks ++ ks') seen ≡ onto ks' (onto ks seen)
unfolding onto
onto-append seen [] ks' = refl
onto-append seen (x ∷ ks) ks' = onto-append (x ∷ seen) ks ks'

unfoldable names : Seen → List Text
names [] = []
names ((k, path) ∷ seen) = k ∷ names seen

lookup_path-none :
    (key : Text) (seen : Seen)
    → lookup_path key seen ≡ none
    → any (text_eq key) (names seen) ≡ false
unfolding lookup_path names any
lookup_path-none key [] h = refl
lookup_path-none key ((k, path) ∷ seen) h = ground (arith, lookup_path-none key seen)

-- A part of the validation that finds no error has met exactly these keys, all new.
abbrev Enters : List Text → Check → Type 0
Enters ks m =
    (seen : Seen)
    → (m seen).0 ≡ []
    → (apart (names seen) ks ≡ true) × (names (m seen).1 ≡ onto ks (names seen))

report-Enters : (errs : List Text) → Enters [] (report errs)
unfolding report apart onto
report-Enters errs seen h = (refl, refl)

>>-Enters :
    (ks ks' : List Text) (m n : Check) → Enters ks m → Enters ks' n → Enters (ks ++ ks') (m >> n)
unfolding ◌>>◌
>>-Enters ks ks' m n f g seen h =
    let (none_here, none_later) = append-eq-nil (m seen).0 (n (m seen).1).0 h in
    let (apart_here, met_here) = f seen none_here in
    let (apart_later, met_later) = g (m seen).1 none_later in
    (
      apart-append (names seen) ks ks' apart_here
          (subst (λ x. apart x ks' ≡ true) met_here apart_later),
      met_later ∙ (ap (onto ks') met_here ∙ sym (onto-append (names seen) ks ks')),
    )

>>-report-Enters :
    (ks : List Text) (m : Check) (errs : List Text) → Enters ks m → Enters ks (m >> report errs)
unfolding ◌>>◌ report
>>-report-Enters ks m errs f seen h = f seen (append-eq-nil (m seen).0 errs h).0

module _ {Float : Type 0} (o : Outside Float) where
  -- The keys of one code, with its synonyms.
  unfoldable pub code_keys : Text → Text → List Text
  code_keys code synonyms = map (key_of o) (code ∷ synonyms_of synonyms)

  check_value-Enters : (path s : Text) → Enters (key_of o s ∷ []) (check_value o path s)
  unfolding check_value duplicate_errors apart onto names
  check_value-Enters path s seen h = elim (Bool-cases (is_empty (key_of o s))) [
    | inl e ↦ cc (rw e at h)
    | inr e ↦ elim (Option-cases (lookup_path (key_of o s) seen)) [
      | inl new ↦ rw (e, lookup_path-none (key_of o s) seen new) (refl, refl)
      | inr (prev, old) ↦ cc (rw (e, old) at h)
    ]
  ]

  check_values-Enters :
      (path : Text) (ss : List Text) → Enters (map (key_of o) ss) (check_values o path ss)
  unfolding check_values
  check_values-Enters path [] = report-Enters []
  check_values-Enters path (s ∷ ss) =
      >>-Enters (key_of o s ∷ []) (map (key_of o) ss) (check_value o path s)
        (check_values o path ss) (check_value-Enters path s) (check_values-Enters path ss)

  check_code-Enters :
      (code synonyms path : Text)
      → Enters (code_keys code synonyms) (check_code o code synonyms path)
  unfolding check_code code_keys
  check_code-Enters code synonyms path seen h = elim (Bool-cases (is_empty (trim_space code))) [
    | inl e ↦ cc (rw e at h)
    | inr e ↦ rw e (check_values-Enters path (code ∷ synonyms_of synonyms) seen (rw e at h))
  ]

  unfoldable pub main_keys : List LevelCode → List Text
  unfolding code_keys
  main_keys [] = []
  main_keys (c ∷ cs) = code_keys c.code c.synonyms ++ main_keys cs

  unfoldable pub bonus_keys : List BonusCode → List Text
  unfolding code_keys
  bonus_keys [] = []
  bonus_keys (c ∷ cs) = code_keys c.code c.synonyms ++ bonus_keys cs

  unfoldable pub fake_keys : List FakeCode → List Text
  unfolding code_keys
  fake_keys [] = []
  fake_keys (c ∷ cs) = code_keys c.code c.synonyms ++ fake_keys cs

  unfoldable pub spoiler_keys : List SpoilerParams → List Text
  unfolding code_keys
  spoiler_keys [] = []
  spoiler_keys (c ∷ cs) = code_keys c.code c.synonyms ++ spoiler_keys cs

  -- The keys of all codes and synonyms of a level.
  unfoldable pub level_keys : LevelParams → List Text
  unfolding main_keys bonus_keys fake_keys spoiler_keys
  level_keys p =
      ((main_keys p.level_codes ++ bonus_keys p.bonus_codes) ++ fake_keys p.fake_codes)
      ++ spoiler_keys p.spoilers

  check_main-Enters :
      (sectors i : ℕ) (cs : List LevelCode) → Enters (main_keys cs) (check_main o sectors i cs)
  unfolding check_main main_keys
  check_main-Enters sectors i [] = report-Enters []
  check_main-Enters sectors i (c ∷ cs) =
      >>-Enters (code_keys c.code c.synonyms) (main_keys cs) _ (check_main o sectors (i + 1) cs)
        (>>-report-Enters (code_keys c.code c.synonyms) _ _ (check_code-Enters c.code c.synonyms _))
        (check_main-Enters sectors (i + 1) cs)

  check_bonus-Enters : (i : ℕ) (cs : List BonusCode) → Enters (bonus_keys cs) (check_bonus o i cs)
  unfolding check_bonus bonus_keys
  check_bonus-Enters i [] = report-Enters []
  check_bonus-Enters i (c ∷ cs) =
      >>-Enters (code_keys c.code c.synonyms) (bonus_keys cs) _ (check_bonus o (i + 1) cs)
        (>>-report-Enters (code_keys c.code c.synonyms) _ _ (check_code-Enters c.code c.synonyms _))
        (check_bonus-Enters (i + 1) cs)

  check_fake-Enters : (i : ℕ) (cs : List FakeCode) → Enters (fake_keys cs) (check_fake o i cs)
  unfolding check_fake fake_keys
  check_fake-Enters i [] = report-Enters []
  check_fake-Enters i (c ∷ cs) =
      >>-Enters (code_keys c.code c.synonyms) (fake_keys cs) _ (check_fake o (i + 1) cs)
        (check_code-Enters c.code c.synonyms _) (check_fake-Enters (i + 1) cs)

  check_spoilers-Enters :
      (i : ℕ) (cs : List SpoilerParams) → Enters (spoiler_keys cs) (check_spoilers o i cs)
  unfolding check_spoilers spoiler_keys
  check_spoilers-Enters i [] = report-Enters []
  check_spoilers-Enters i (c ∷ cs) =
      >>-Enters (code_keys c.code c.synonyms) (spoiler_keys cs) _ (check_spoilers o (i + 1) cs)
        (>>-report-Enters (code_keys c.code c.synonyms) _ _ (check_code-Enters c.code c.synonyms _))
        (check_spoilers-Enters (i + 1) cs)

  check_codes-Enters : (p : LevelParams) → Enters (level_keys p) (check_codes o p)
  unfolding check_codes level_keys
  check_codes-Enters p =
      >>-Enters _ (spoiler_keys p.spoilers) _ (check_spoilers o 0 p.spoilers)
        (>>-Enters _ (fake_keys p.fake_codes) _ (check_fake o 0 p.fake_codes)
          (>>-Enters (main_keys p.level_codes) (bonus_keys p.bonus_codes) _
            (check_bonus o 0 p.bonus_codes)
            (check_main-Enters (length p.sector_names) 0 p.level_codes)
            (check_bonus-Enters 0 p.bonus_codes))
          (check_fake-Enters 0 p.fake_codes))
        (check_spoilers-Enters 0 p.spoilers)

  -- In a level that validates no code or synonym, main, bonus, fake or of a spoiler, is blank or the
  -- same as another up to case and surrounding space.
  pub validate_params-apart :
      (p : LevelParams) → validate_params o p ≡ [] → apart [] (level_keys p) ≡ true
  unfolding validate_params names
  validate_params-apart p h =
      let (a, rest) = append-eq-nil _ _ h in
      let (b, rest') = append-eq-nil _ _ rest in
      let (c, d) = append-eq-nil _ _ rest' in (check_codes-Enters p [] c).0
