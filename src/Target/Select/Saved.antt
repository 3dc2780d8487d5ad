-- ===== src/Target/Select/Saved.antt =====
-- About the queries of src/target.c that succeed, and about `config_save_target`.
use susanin.Prelude.{
  ◌≡◌, refl, Bool, true, false, List, [], ◌∷◌, ◌++◌, some, All, inl, inr, arith, Bool-cases,
  Option-cases,
}
use susanin.Prelude.Int.{pos, is_neg}
use susanin.Prelude.Text.{Text}
use susanin.Ros.Sentence.{Sentence}
use susanin.Ros.Command.{Callback, is_done, is_trap}
use susanin.Ros.Command.Drain.{GoesOn}
use susanin.Ros.Command.Success.{feed}
use susanin.Ros.Session.{Router, Session, ros_command}
use susanin.Ros.Session.Calls.{received, ros_command-Complete}
use susanin.Config.Options.{TargetMode, Settings, save_target}
use susanin.Config.Write.{config_text}
use susanin.Target.Interfaces.{collect}
use susanin.Target.Select.{Selection, config_save_target}

-- Settings that were accepted and are in the file.
pub record SavedAs (cfg : Settings) (mode : TargetMode) (value egress table : Text)
    (sel : Selection) : Type 0 where
  pub accepted : save_target cfg mode value egress table ≡ some sel.cfg
  pub written : sel.file ≡ some (config_text sel.cfg)

pub config_save_target_good :
    (writes : Bool) (cfg : Settings) (mode : TargetMode) (value egress table : Text)
    → is_neg (config_save_target writes cfg mode value egress table).rc ≡ false
    → SavedAs cfg mode value egress table (config_save_target writes cfg mode value egress table)
unfolding config_save_target
config_save_target_good true cfg mode value egress table h =
    elim (Option-cases (save_target cfg mode value egress table)) [
      | inl e ↦ cc (rw (e, config_save_target) at h)
      | inr (cfg', e) ↦ rw (e, config_save_target) (record { accepted = e; written = refl })
    ]
config_save_target_good false cfg mode value egress table h =
    elim (Option-cases (save_target cfg mode value egress table)) [
      | inl e ↦ cc (rw (e, config_save_target) at h)
      | inr (cfg', e) ↦ cc (rw (e, config_save_target) at h)
    ]

-- The answer to a query: replies without a trap up to `!done`.
pub record Answered {R : Router} (s : Session R) (words : List Text) (replies : List Sentence)
    : Type 0 where
  pub before : List Sentence
  pub last : Sentence
  pub left : List Sentence
  pub splits : received s words ≡ before ++ (last ∷ left)
  pub quiet : All (λ s. is_trap s ≡ false) before
  pub ongoing : All GoesOn before
  pub ends : is_done last ≡ true
  pub all_of_them : replies ≡ before ++ (last ∷ [])

-- A query that succeeded, with what its callback made of the answer.
pub record Collected {R : Router} {C : Type 0} (s : Session R) (words : List Text) (cb : Callback C)
    (start ctx : C) : Type 0 where
  pub replies : List Sentence
  pub answered : Answered s words replies
  pub fed : ctx ≡ feed cb replies start

pub collect-Collected :
    {R : Router} {C : Type 0} (s : Session R) (words : List Text) (cb : Callback C) (start ctx : C)
    → ((st : Sentence) (c : C) → (cb st c).0 ≡ pos 0)
    → (collect s words cb start).0 ≡ some ctx
    → Collected s words cb start ctx
unfolding collect
collect-Collected s words cb start ctx calm h =
    let call = ros_command s words (some cb) start in
    elim (Bool-cases (is_neg call.0)) [
      | inl e ↦ cc (rw (e, collect) at h)
      | inr e ↦
          let (left, c) = ros_command-Complete s words cb start call.0 call.1 call.2 calm refl e in
          let same : call.1 ≡ ctx = ground (arith, rw (e, collect) at h) in
          record {
            replies = c.before ++ (c.last ∷ []);
            answered = record {
              before = c.before;
              last = c.last;
              left = left;
              splits = c.splits;
              quiet = c.quiet;
              ongoing = c.ongoing;
              ends = c.ends;
              all_of_them = refl;
            };
            fed = rw (← same) c.shown;
          }
    ]
