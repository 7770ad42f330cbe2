-- ===== src/Mock/Step/Parts.antt =====
-- The writes that the handlers are made of, each as a step, and how steps compose.
use mathlib.Core.List.{append_assoc, append-nil}
use dzzzr_cli.Base.{
  ℕ, ◌+◌, ◌≡◌, refl, sym, ◌∙◌, ap, Bool, true, false, Option, some, List, [], ◌++◌, arith, leb,
  ◌==◌, if◌then◌else◌, is_some, Text, ℤ, ◌+ℤ◌,
}
use dzzzr_cli.Mock.State.{LevelProgress, Event, GameState, OrgMessage, put, add_log}
use dzzzr_cli.Mock.Line.{next_main_order, main_line}
use dzzzr_cli.Mock.Step.{IsSound, Step, Extends}

pub Extends-refl {ℓ} : {A : Type ℓ} (xs : List A) → Extends xs xs
Extends-refl xs = ([], sym (append-nil xs))

pub Extends-trans {ℓ} :
    {A : Type ℓ} (xs : List A) {ys zs : List A} → Extends xs ys → Extends ys zs → Extends xs zs
Extends-trans xs (us, e) (vs, f) = (us ++ vs, f ∙ ap (λ t. t ++ vs) e ∙ append_assoc xs us vs)

pub Step-refl : (g : GameState) → Step g g
Step-refl g = record {
  sound = λ s. s;
  levels_kept = refl;
  captain_kept = refl;
  log_grows = Extends-refl g.log;
  issued_grows = Extends-refl g.issued;
  finished_stays = λ e. e;
  master_stays = λ e. e;
}

pub Step-trans : {f g h : GameState} → Step f g → Step g h → Step f h
Step-trans {f} s t = record {
  sound = λ v. t.sound (s.sound v);
  levels_kept = t.levels_kept ∙ s.levels_kept;
  captain_kept = t.captain_kept ∙ s.captain_kept;
  log_grows = Extends-trans f.log s.log_grows t.log_grows;
  issued_grows = Extends-trans f.issued s.issued_grows t.issued_grows;
  finished_stays = λ e. t.finished_stays (s.finished_stays e);
  master_stays = λ e. t.master_stays (s.master_stays e);
}

-- Both branches of a test are steps.
pub if-Step :
    {g : GameState} (b : Bool) {x y : GameState} → Step g x → Step g y → Step g (if b then x else y)
if-Step true s t = s
if-Step false s t = t

pub add_log-Step :
    (g : GameState) (at : ℕ) (event : Event) (info user : Text)
    → Step g (add_log g at event info user)
unfolding add_log
add_log-Step g at event info user = record {
  sound = λ s. s;
  levels_kept = refl;
  captain_kept = refl;
  log_grows = (_, refl);
  issued_grows = Extends-refl g.issued;
  finished_stays = λ e. e;
  master_stays = λ e. e;
}

-- A write under one order leaves the others, so nothing that was there is lost.
put-keeps :
    (f : ℕ → Option LevelProgress) (n : ℕ) (p : LevelProgress) (m : ℕ)
    → is_some (f m) ≡ true
    → is_some (if m == n then some p else f m) ≡ true
put-keeps f n p m h = ground arith

put-Sound : (g : GameState) (n : ℕ) (p : LevelProgress) → IsSound g → IsSound (put g n p)
unfolding put
put-Sound g n p s = record {
  playing =
      λ h. ((s.playing h).0, put-keeps g.progress n p g.current (s.playing h).1, (s.playing h).2);
  recorded = λ m h. put-keeps g.progress n p m (s.recorded m h);
  once = s.once;
  over = s.over;
  numbered = s.numbered;
  breaks_capped = s.breaks_capped;
  abandons_capped = s.abandons_capped;
}

pub put-Step : (g : GameState) (n : ℕ) (p : LevelProgress) → Step g (put g n p)
unfolding put
put-Step g n p = record {
  sound = put-Sound g n p;
  levels_kept = refl;
  captain_kept = refl;
  log_grows = Extends-refl g.log;
  issued_grows = Extends-refl g.issued;
  finished_stays = λ e. e;
  master_stays = λ e. e;
}

pub penalty-Step : (g : GameState) (d : ℤ) → Step g (record g { penalty_min = g.penalty_min +ℤ d })
penalty-Step g d = record {
  sound = λ s. s;
  levels_kept = refl;
  captain_kept = refl;
  log_grows = Extends-refl g.log;
  issued_grows = Extends-refl g.issued;
  finished_stays = λ e. e;
  master_stays = λ e. e;
}

pub bonus-Step : (g : GameState) (d : ℤ) → Step g (record g { bonus_min = g.bonus_min +ℤ d })
bonus-Step g d = record {
  sound = λ s. s;
  levels_kept = refl;
  captain_kept = refl;
  log_grows = Extends-refl g.log;
  issued_grows = Extends-refl g.issued;
  finished_stays = λ e. e;
  master_stays = λ e. e;
}

pub master-Step : (g : GameState) → Step g (record g { master_used = true })
master-Step g = record {
  sound = λ s. s;
  levels_kept = refl;
  captain_kept = refl;
  log_grows = Extends-refl g.log;
  issued_grows = Extends-refl g.issued;
  finished_stays = λ e. e;
  master_stays = λ e. refl;
}

pub message-Step : (g : GameState) (m : List OrgMessage) → Step g (record g { org_messages = m })
message-Step g m = record {
  sound = λ s. s;
  levels_kept = refl;
  captain_kept = refl;
  log_grows = Extends-refl g.log;
  issued_grows = Extends-refl g.issued;
  finished_stays = λ e. e;
  master_stays = λ e. e;
}

pub breaks-Step :
    (g : GameState) (b : ℕ)
    → leb 2 g.breaks ≡ false
    → Step g (record g { breaks = g.breaks + 1; break_pending = b })
breaks-Step g b h = record {
  sound = λ s. record {
    playing = s.playing;
    recorded = s.recorded;
    once = s.once;
    over = s.over;
    numbered = s.numbered;
    breaks_capped = ground arith;
    abandons_capped = s.abandons_capped;
  };
  levels_kept = refl;
  captain_kept = refl;
  log_grows = Extends-refl g.log;
  issued_grows = Extends-refl g.issued;
  finished_stays = λ e. e;
  master_stays = λ e. e;
}

pub abandons-Step :
    (g : GameState) → leb 2 g.abandons ≡ false → Step g (record g { abandons = g.abandons + 1 })
abandons-Step g h = record {
  sound = λ s. record {
    playing = s.playing;
    recorded = s.recorded;
    once = s.once;
    over = s.over;
    numbered = s.numbered;
    breaks_capped = s.breaks_capped;
    abandons_capped = ground arith;
  };
  levels_kept = refl;
  captain_kept = refl;
  log_grows = Extends-refl g.log;
  issued_grows = Extends-refl g.issued;
  finished_stays = λ e. e;
  master_stays = λ e. e;
}

-- Breaks change nothing that the invariant speaks of, and neither does having no level.
pub pause-Step :
    (g : GameState) (pending until : ℕ) (next : Bool)
    → Step g (record g { break_pending = pending; break_until = until; pending_next = next })
pause-Step g pending until next = record {
  sound = λ s. s;
  levels_kept = refl;
  captain_kept = refl;
  log_grows = Extends-refl g.log;
  issued_grows = Extends-refl g.issued;
  finished_stays = λ e. e;
  master_stays = λ e. e;
}

pub idle-Step : (g : GameState) → Step g (record g { current = 0 })
idle-Step g = record {
  sound = λ s. record {
    playing = λ h. absurd (h refl);
    recorded = s.recorded;
    once = s.once;
    over = s.over;
    numbered = s.numbered;
    breaks_capped = s.breaks_capped;
    abandons_capped = s.abandons_capped;
  };
  levels_kept = refl;
  captain_kept = refl;
  log_grows = Extends-refl g.log;
  issued_grows = Extends-refl g.issued;
  finished_stays = λ e. e;
  master_stays = λ e. e;
}

pub finish-Step :
    (g : GameState) → next_main_order g ≡ 0 → Step g (record g { current = 0; finished = true })
unfolding next_main_order main_line
finish-Step g e = record {
  sound = λ s. record {
    playing = λ h. absurd (h refl);
    recorded = s.recorded;
    once = s.once;
    over = λ _. e;
    numbered = s.numbered;
    breaks_capped = s.breaks_capped;
    abandons_capped = s.abandons_capped;
  };
  levels_kept = refl;
  captain_kept = refl;
  log_grows = Extends-refl g.log;
  issued_grows = Extends-refl g.issued;
  finished_stays = λ _. refl;
  master_stays = λ e. e;
}
