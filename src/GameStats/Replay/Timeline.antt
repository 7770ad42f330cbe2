-- ===== src/GameStats/Replay/Timeline.antt =====
-- What the replay of a log in order of time knows of when levels are issued and closed.
use dzzzr_cli.Base.{
  ℕ, ◌≤◌, ◌≡◌, refl, subst, Bool, true, false, not, ◌&&◌, Option, none, some, inl, inr, arith,
  if◌then◌else◌, is_some, Text, text_eq, eq_of-text_eq, is_empty, Bool-cases, &&-eq-true,
}
use dzzzr_cli.GameStats.Records.{Record, Replay, or_new, put_record, or_now}

-- When a level that is not a through one was issued and closed, up to now; none is closed unissued.
unfoldable pub Spans : ℕ → Bool → Option ℕ → Option ℕ → Type 0
Spans now through none none = Unit
Spans now through none (some c) = ⊥
Spans now true (some t) c = Unit
Spans now false (some t) none = t ≤ now
Spans now false (some t) (some c) = (t ≤ c) × (c ≤ now)

-- The name of a level is the current one, which the empty name never is.
unfoldable pub is_at : Text → Text → Bool
is_at cur level = text_eq cur level && not (is_empty level)

unfoldable pub is_open : Bool → Option ℕ → Option ℕ → Bool
is_open through issued closed = not through && (is_some issued && not (is_some closed))

-- The times are in order; the current level is issued; and an open level is the current one.
unfoldable pub Tracks : ℕ → Bool → Bool → Option ℕ → Option ℕ → Type 0
Tracks now here through issued closed =
    Spans now through issued closed
    × ((here ≡ true → is_some issued ≡ true) × (is_open through issued closed ≡ true → here ≡ true))

unfoldable pub Kept : ℕ → Bool → Option Record → Type 0
Kept now here none = here ≡ false
Kept now here (some r) = Tracks now here r.through r.issued r.closed_at

abbrev pub IsTracked : ℕ → Replay → Type 0
IsTracked now s = (team level : Text) → Kept now (is_at (s.current team) level) (s.recs team level)

Spans-later :
    (now now' : ℕ) (through : Bool) (issued closed : Option ℕ)
    → now ≤ now'
    → Spans now through issued closed
    → Spans now' through issued closed
unfolding Spans
Spans-later now now' through none none h k = tt
Spans-later now now' through none (some c) h k = absurd k
Spans-later now now' true (some t) c h k = tt
Spans-later now now' false (some t) none h k = omega (arith, h, k)
Spans-later now now' false (some t) (some c) h k = (k.0, omega (arith, h, k.1))

pub Kept-later :
    (now now' : ℕ) (here : Bool) (r : Option Record)
    → now ≤ now'
    → Kept now here r
    → Kept now' here r
unfolding Kept Tracks
Kept-later now now' here none h k = k
Kept-later now now' here (some r) h k =
    (Spans-later now now' r.through r.issued r.closed_at h k.0, k.1)

-- A missing record is as a new one.
pub record-Tracks :
    (now : ℕ) (here : Bool) (r : Option Record)
    → Kept now here r
    → Tracks now here (or_new r).through (or_new r).issued (or_new r).closed_at
unfolding Kept or_new Tracks Spans is_open
record-Tracks now here none h = (tt, (λ e. cc (h, e), λ e. cc e))
record-Tracks now here (some r) h = h

-- Becoming a through level, perhaps issued so.
pub through-Tracks :
    (now at : ℕ) (here through : Bool) (issued closed : Option ℕ)
    → Tracks now here through issued closed
    → Tracks now here true (some (or_now issued at)) closed
unfolding Tracks Spans is_open or_now
through-Tracks now at here through none none h = (tt, (λ e. refl, λ e. cc e))
through-Tracks now at here through none (some c) h = absurd h.0
through-Tracks now at here through (some t) closed h = (tt, (λ e. refl, λ e. cc e))

-- Being issued, as the level that is current from now on.
pub issue-Tracks :
    (now : ℕ) (here through : Bool) (issued closed : Option ℕ)
    → (is_some issued && is_some closed) ≡ false
    → Tracks now here through issued closed
    → Tracks now true through (some (or_now issued now)) closed
unfolding Tracks Spans is_open or_now
issue-Tracks now here true none none h k = (tt, (λ e. refl, λ e. refl))
issue-Tracks now here false none none h k = (omega arith, (λ e. refl, λ e. refl))
issue-Tracks now here through none (some c) h k = absurd k.0
issue-Tracks now here through (some t) (some c) h k = cc h
issue-Tracks now here true (some t) none h k = (tt, (λ e. refl, λ e. refl))
issue-Tracks now here false (some t) none h k = (k.0, (λ e. refl, λ e. refl))

-- Being closed, where it was current and no longer is.
pub close-Tracks :
    (now : ℕ) (through : Bool) (issued closed : Option ℕ)
    → Tracks now true through issued closed
    → Tracks now false through issued (some (or_now closed now))
unfolding Tracks Spans is_open or_now
close-Tracks now through none closed h = cc (h.1.0 refl)
close-Tracks now true (some t) closed h = (tt, (λ e. cc e, λ e. cc e))
close-Tracks now false (some t) none h = ((h.0, omega arith), (λ e. cc e, λ e. cc e))
close-Tracks now false (some t) (some c) h = (h.0, (λ e. cc e, λ e. cc e))

-- The same for a whole state, where `here` says which level is to count as a team's current one.
abbrev pub Follows : ℕ → (Text → Text → Bool) → Replay → Type 0
Follows now here s = (team level : Text) → Kept now (here team level) (s.recs team level)

abbrev pub currently : Replay → Text → Text → Bool
currently s team level = is_at (s.current team) level

-- `here`, but `b` for one level of one team.
unfoldable pub but : Text → Text → Bool → (Text → Text → Bool) → Text → Text → Bool
but team level b here t l = if text_eq t team && text_eq l level then b else here t l

if_Kept :
    (now : ℕ) (c b h : Bool) (r : Record) (old : Option Record)
    → Kept now b (some r)
    → Kept now h old
    → Kept now (if c then b else h) (if c then some r else old)
if_Kept now true b h r old new k = new
if_Kept now false b h r old new k = k

pub put_record-Follows :
    (now : ℕ) (here : Text → Text → Bool) (s : Replay) (team level : Text) (b : Bool) (r : Record)
    → Follows now here s
    → Kept now b (some r)
    → Follows now (but team level b here) (put_record team level r s)
unfolding put_record but
put_record-Follows now here s team level b r h new t l =
    if_Kept now (text_eq t team && text_eq l level) b (here t l) r (s.recs t l) new (h t l)

but_same :
    (team level : Text) (here : Text → Text → Bool) (t l : Text)
    → but team level (here team level) here t l ≡ here t l
unfolding but
but_same team level here t l = elim (Bool-cases (text_eq t team && text_eq l level)) [
  | inl e ↦
      let (p, q) = &&-eq-true (text_eq t team) (text_eq l level) e in
      rw (e, eq_of-text_eq t team p, eq_of-text_eq l level q) refl
  | inr e ↦ rw e refl
]

-- A record is changed, and the current levels are not.
pub put_record-IsTracked :
    (now : ℕ) (s : Replay) (team level : Text) (r : Record)
    → IsTracked now s
    → Kept now (currently s team level) (some r)
    → IsTracked now (put_record team level r s)
unfolding put_record
put_record-IsTracked now s team level r h new t l =
    subst (λ b. Kept now b ((put_record team level r s).recs t l))
      (but_same team level (currently s) t l)
      (put_record-Follows now (currently s) s team level (currently s team level) r h new t l)
