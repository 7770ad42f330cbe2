-- ===== src/GameStats/Records.antt =====
-- gamestats/types.go and parse.go: the records of a game, and the maps that the replay keeps. What
-- `Parse` works out afterwards (`Elapsed`, `DoneAt`, `Rejected`) is in Finish, or left out. A missing
-- key gives what the Go maps give: no record, no current level, order 0.
use dzzzr_cli.Base.{
  ℕ, Bool, false, ◌&&◌, ◌||◌, Option, none, some, List, [], ◌∷◌, if◌then◌else◌, Text, text_eq,
  is_empty,
}

pub record Code : Type 0 where
  pub at : ℕ
  pub raw : Text
  pub player : Text
  pub n : Text
  pub count : ℕ

pub record Override : Type 0 where
  pub is_average : Bool
  pub at : ℕ
  pub logged : ℕ

abbrev pub Codes : Type 0
Codes = List (Text × Code)

pub record Record : Type 0 where
  pub issued : Option ℕ
  pub closed_at : Option ℕ
  pub timeout_at : Option ℕ
  pub refused_at : Option ℕ
  pub spoiler_at : Option ℕ
  pub last_code_at : Option ℕ
  pub override : Option Override
  pub codes_found : Codes
  pub bonus : Codes
  pub spoilers : Codes
  pub spoiler_bad : Codes
  pub hint_req : ℕ
  pub order : ℕ
  pub through : Bool

abbrev pub new_record : Record
new_record = record {
  issued = none;
  closed_at = none;
  timeout_at = none;
  refused_at = none;
  spoiler_at = none;
  last_code_at = none;
  override = none;
  codes_found = [];
  bonus = [];
  spoilers = [];
  spoiler_bad = [];
  hint_req = 0;
  order = 0;
  through = false;
}

-- The game so far, with the loop's own maps.
pub record Replay : Type 0 where
  pub end_at : ℕ
  pub ended : Bool
  pub prequel : List Text
  pub plan : Text → List Text
  pub levels : List (Text × Bool)
  pub recs : Text → Text → Option Record
  pub current : Text → Text
  pub orders : Text → ℕ

abbrev pub new_replay : Replay
new_replay = record {
  end_at = 0;
  ended = false;
  prequel = [];
  plan = λ team. [];
  levels = [];
  recs = λ team level. none;
  current = λ team. [];
  orders = λ team. 0;
}

unfoldable pub mark_level : Text → Bool → List (Text × Bool) → List (Text × Bool)
mark_level name through [] = (name, through) ∷ []
mark_level name through ((n, t) ∷ ls) =
    let rest = mark_level name through ls in
    if text_eq n name then (n, t || through) ∷ ls else (n, t) ∷ rest

unfoldable pub touch : Text → Bool → Replay → Replay
unfolding mark_level
touch name through s =
    if is_empty name then s else record s { levels = mark_level name through s.levels }

unfoldable pub or_new : Option Record → Record
or_new none = new_record
or_new (some r) = r

-- `record`: the record of a team's level, a new one if there is none.
unfoldable pub record_of : Replay → Text → Text → Record
unfolding or_new
record_of s team level = or_new (s.recs team level)

unfoldable pub put_record : Text → Text → Record → Replay → Replay
put_record team level r s = record s {
  recs = λ t l. if text_eq t team && text_eq l level then some r else s.recs t l;
}

unfoldable pub or_now : Option ℕ → ℕ → ℕ
or_now none now = now
or_now (some t) now = t

-- The first time stays.
abbrev pub first_time : Option ℕ → ℕ → Option ℕ
first_time found now = some (or_now found now)
