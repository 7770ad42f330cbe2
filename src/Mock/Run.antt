-- ===== src/Mock/Run.antt =====
-- Histories of posts, and what holds after any of them.
use dzzzr_cli.Base.{ℕ, ◌≡◌, ◌≢◌, Bool, true, List, [], ◌∷◌}
use dzzzr_cli.Mock.State.{GameState}
use dzzzr_cli.Mock.Line.{contains, next_main_order, main_line}
use dzzzr_cli.Mock.Line.Next.{is_main, next_main_order_over}
use dzzzr_cli.Mock.Entry.{Form, Session, nil_deref}
use dzzzr_cli.Mock.Actions.{Action, post}
use dzzzr_cli.Mock.Step.{IsSound, Step, Extends}
use dzzzr_cli.Mock.Step.Parts.{Step-refl, Step-trans}
use dzzzr_cli.Mock.Step.Posts.{post-GoodReply}

pub record Post : Type 0 where
  pub session : Session
  pub action : Action
  pub form : Form
  pub now : ℕ

module _ (upper : ℕ → ℕ) (quiet : Bool) where
  unfoldable pub play : GameState → List Post → GameState
  play g [] = g
  play g (p ∷ ps) = play (post upper quiet g p.session p.action p.form p.now).0 ps

  pub play-Step : (g : GameState) (ps : List Post) → Step g (play g ps)
  unfolding play
  play-Step g [] = Step-refl g
  play-Step g (p ∷ ps) =
      Step-trans (post-GoodReply upper quiet g p.session p.action p.form p.now).step
        (play-Step (post upper quiet g p.session p.action p.form p.now).0 ps)

  -- After any posts, by anyone and at any moments, a sound game is sound: the level being played
  -- exists, has progress and means that the game is not over, every level handed over has progress,
  -- none was handed over twice, the game is over only when every main level was handed over, and no
  -- more than two breaks and two abandons were used.
  pub play-IsSound : (g : GameState) (ps : List Post) → IsSound g → IsSound (play g ps)
  play-IsSound g ps s = (play-Step g ps).sound s

  -- After any posts on a sound game, the next post does not make the handler read a nil pointer.
  pub post_never_faults :
      (g : GameState) (ps : List Post) (p : Post)
      → IsSound g
      → (post upper quiet (play g ps) p.session p.action p.form p.now).2 ≢ nil_deref
  post_never_faults g ps p s =
      (post-GoodReply upper quiet (play g ps) p.session p.action p.form p.now).safe
        (play-IsSound g ps s)

  -- Posts only append to the log and to the list of levels handed over, leave the levels and the
  -- captain as they are, and never take back the end of the game or the use of the universal code.
  pub play_grows :
      (g : GameState) (ps : List Post)
      → Extends g.log (play g ps).log
        × Extends g.issued (play g ps).issued
        × ((play g ps).levels ≡ g.levels)
        × ((play g ps).captain ≡ g.captain)
        × (g.finished ≡ true → (play g ps).finished ≡ true)
        × (g.master_used ≡ true → (play g ps).master_used ≡ true)
  play_grows g ps =
      let s = play-Step g ps in
      (s.log_grows, s.issued_grows, s.levels_kept, s.captain_kept, s.finished_stays, s.master_stays)

-- A game that posts have brought to its end has handed over every main level, from any sound game.
pub finished_all_issued :
    (upper : ℕ → ℕ) (quiet : Bool) (g : GameState) (ps : List Post) (k : ℕ)
    → IsSound g
    → (play upper quiet g ps).finished ≡ true
    → is_main g.levels k ≡ true
    → contains k (play upper quiet g ps).issued ≡ true
unfolding next_main_order main_line
finished_all_issued upper quiet g ps k s e m =
    let t = play-Step upper quiet g ps in
    let v = t.sound s in
    next_main_order_over (play upper quiet g ps) k v.numbered (v.over e) (rw t.levels_kept m)
