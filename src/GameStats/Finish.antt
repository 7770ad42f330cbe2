-- ===== src/GameStats/Finish.antt =====
-- gamestats/parse.go: what `Parse` works out of each level once the log is replayed. Go's order of a
-- map's keys is not fixed; here it is the order in which they were met. `Elapsed` is left out.
pub mod Done
use dzzzr_cli.Base.{
  ℕ, zero, suc, ◌+◌, ◌-◌, ◌≡◌, refl, Bool, true, false, not, ◌&&◌, ◌||◌, Option, none, some, List,
  [], ◌∷◌, ◌++◌, map, any, ltb, leb, ◌==◌, if◌then◌else◌, is_some, length, get_elem?, Text, codes,
  is_empty, text_eq, has_prefix, contains_text, split_on,
}
use dzzzr_cli.GameStats.Log.{
  Kind, issue_event, code_event, timeout_event, bonus_event, Event, KindedEvent, Reading,
}
use dzzzr_cli.GameStats.Records.{Code, Codes, Record, Replay}
use dzzzr_cli.GameStats.Replay.{has_code, larger}

-- `slices.Sort`
unfoldable pub insert_time : ℕ → List ℕ → List ℕ
insert_time t [] = t ∷ []
insert_time t (u ∷ us) = let deeper = u ∷ insert_time t us in if leb t u then t ∷ u ∷ us else deeper

unfoldable pub sort_times : List ℕ → List ℕ
unfolding insert_time
sort_times [] = []
sort_times (t ∷ ts) = insert_time t (sort_times ts)

unfoldable pub times_of : Codes → List ℕ
times_of [] = []
times_of ((key, c) ∷ cs) = c.at ∷ times_of cs

-- The records of a level, in the order of the teams.
unfoldable pub records_of : Replay → Text → List Text → List Record
records_of s level [] = []
records_of s level (team ∷ teams) =
    let rest = records_of s level teams in
    elim (s.recs team level) [ some r ↦ r ∷ rest | none ↦ rest ]

unfoldable pub timed_out : Option ℕ → ℕ → Bool
timed_out none closed = false
timed_out (some t) closed = leb t (closed + 2000)

-- Closed by its codes: closed in time, and not refused.
unfoldable pub closed_by_codes : Option ℕ → Option ℕ → Option ℕ → Bool
unfolding timed_out
closed_by_codes none timeout refused = false
closed_by_codes (some c) timeout refused = not (timed_out timeout c) && not (is_some refused)

abbrev pub is_counted : Record → Bool
is_counted r = closed_by_codes r.closed_at r.timeout_at r.refused_at

abbrev pub found_count : Record → ℕ
found_count r = length r.codes_found

unfoldable pub fewer_codes : ℕ → ℕ → ℕ
fewer_codes n required = if ltb 0 n && ((required == 0) || ltb n required) then n else required

-- `ReqThrough` and `ReqCodes`
unfoldable pub most_codes : ℕ → List Record → ℕ
unfolding larger
most_codes most [] = most
most_codes most (r ∷ rs) = most_codes (larger most (found_count r)) rs

unfoldable pub required_codes : ℕ → List Record → ℕ
unfolding fewer_codes closed_by_codes
required_codes required [] = required
required_codes required (r ∷ rs) =
    required_codes (if is_counted r then fewer_codes (found_count r) required else required) rs

-- `DoneAt`: the time of the last code that the level requires.
unfoldable pub done_at : ℕ → Record → Option ℕ
unfolding sort_times times_of
done_at required r =
    if ltb 0 required && leb required (found_count r)
    then get_elem? (sort_times (times_of r.codes_found)) (required - 1)
    else none

unfoldable pub is_after : Option ℕ → ℕ → Bool
is_after none t = false
is_after (some at) t = leb at t

unfoldable pub earlier_code : Code → Option Code → Option Code
earlier_code c none = some c
earlier_code c (some best) = if ltb c.at best.at then some c else some best

-- `Rejected`: the first code refused to a team, before its spoiler, that some team was given.
unfoldable pub rejected_of : (Text → Bool) → Option ℕ → Option Code → Codes → Option Code
unfolding is_after earlier_code
rejected_of is_right spoiler_at best [] = best
rejected_of is_right spoiler_at best ((key, c) ∷ cs) =
    rejected_of is_right spoiler_at
      (if not (is_right key) || is_after spoiler_at c.at then best else earlier_code c best) cs

unfoldable pub is_given : List Record → Text → Bool
unfolding has_code
is_given rs key = any (λ r. has_code key r.spoilers) rs

-- What a record has besides, once the level's records are known.
abbrev pub Ending : Type 0
Ending = Option ℕ × Option Code

unfoldable pub ending_of : List Record → Record → Ending
unfolding done_at required_codes rejected_of is_given
ending_of rs r =
    (done_at (required_codes 0 rs) r, rejected_of (is_given rs) r.spoiler_at none r.spoiler_bad)

pub record Level : Type 0 where
  pub name : Text
  pub num : Text
  pub title : Text
  pub family : Text
  pub auto_kind : Text
  pub through : Bool
  pub req_codes : ℕ
  pub req_through : ℕ

unfoldable pub family_of : List Text → Text
family_of [] = codes "x.y.z"
family_of (a ∷ []) = codes "x.y.z"
family_of (a ∷ b ∷ []) = if text_eq b (codes "0") then codes "x.0" else codes "x.y"
family_of (a ∷ b ∷ c ∷ parts) = codes "x.y.z"

unfoldable pub auto_kind_of : Bool → Text → Text
auto_kind_of through n =
    if through || (has_prefix (codes "сквозн") n || has_prefix (codes "технич") n)
    then codes "through"
    else if contains_text (codes "заглушк") n || contains_text (codes "бонусн") n
    then codes "bonus"
    else codes "main"

-- Its number, title and family; `matched` is what `levelNumber` finds in the name.
unfoldable pub numbered : Text → Bool → Option (Text × Text) → Text × Text × Text
unfolding family_of
numbered name true matched = ([], name, codes "through")
numbered name false none = ([], name, codes "other")
numbered name false (some (num, title)) = (num, title, family_of (split_on b'.' [] num))

unfoldable pub finish_level :
    (Text → Text) → (Text → Option (Text × Text)) → List Text → Replay → Text × Bool → Level
unfolding numbered auto_kind_of required_codes most_codes records_of
finish_level lower level_number teams s (name, through) =
    let rs = records_of s name teams in
    let (num, title, family) = numbered name through (level_number name) in
    record {
      name = name;
      num = num;
      title = title;
      family = family;
      auto_kind = auto_kind_of through (lower name);
      through = through;
      req_codes = required_codes 0 rs;
      req_through = most_codes 0 rs;
    }

unfoldable pub is_game_event : Kind → Bool
is_game_event issue_event = true
is_game_event code_event = true
is_game_event timeout_event = true
is_game_event bonus_event = true
is_game_event k = false

unfoldable pub last_time : ℕ → List KindedEvent → ℕ
unfolding is_game_event larger
last_time end [] = end
last_time end ((e, k) ∷ es) = last_time (if is_game_event k then larger end e.time else end) es

-- `EndAt`
unfoldable pub end_of_game : Replay → List KindedEvent → ℕ
unfolding last_time
end_of_game s es = if s.ended then s.end_at else last_time s.end_at es
