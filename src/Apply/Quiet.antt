-- ===== src/Apply/Quiet.antt =====
-- About the commands of src/apply.c.
use susanin.Prelude.{
  ◌≡◌, refl, false, List, [], ◌∷◌, Option, none, some, Bool-cases, Option-cases, inl, inr,
  if-second,
}
use susanin.Prelude.Int.{is_neg}
use susanin.Prelude.Text.{Text, codes, str_eq}
use susanin.Ros.Command.{Callback}
use susanin.Ros.Session.{Router, Session, ros_command}
use susanin.Ros.Session.Log.{
  SentOnly, SentOnly-refl, SentOnly-trans, SentOnly-ros_command, SentOnly-Issued, is_change,
  ends_with,
}
use susanin.Config.Options.{Settings}
use susanin.Renderer.Build.{renderer_build}
use susanin.Renderer.Build.Queries.{Issued-renderer_build}
use susanin.Apply.Rules.{ExpectedMangle, mangle_expected, lookup_mangle_exact}
use susanin.Apply.{
  ApplyCtx, lan_cb, iface_cb, table_cb, script_cb, scheduler_cb, lan_words, iface_words,
  table_words, script_words, scheduler_words, no_state, and_query, collect_state, mangle_actions,
  plan, is_incomplete, apply_dry_run,
}

-- A command that changes nothing.
abbrev IsQuery : List Text → Type 0
IsQuery words = is_change words ≡ false

module _ {R : Router} where
  -- Nothing but queries was sent.
  abbrev Quiet : Session R → Session R → Type 0
  Quiet s s' = SentOnly IsQuery s s'

  and_asks :
      {C : Type 0} {s t : Session R} (words : List Text) (cb : Option (Callback C)) (ctx : C)
      → IsQuery words
      → Quiet s t
      → Quiet s (ros_command t words cb ctx).2
  and_asks {t = t} words cb ctx q a =
      SentOnly-trans IsQuery a (SentOnly-ros_command IsQuery t words cb ctx q)

  Quiet-and_query :
      (words : List Text) (cb : Callback ApplyCtx) (s : Session R) (q : Option ApplyCtx × Session R)
      → IsQuery words
      → Quiet s q.1
      → Quiet s (and_query words cb q).1
  unfolding and_query
  Quiet-and_query words cb s (none, t) i a = a
  Quiet-and_query words cb s (some ctx, t) i a =
      if-second (Quiet s) _ _ _ (λ h. and_asks words (some cb) ctx i a)
        (λ h. and_asks words (some cb) ctx i a)

  Quiet-collect_state : (cfg : Settings) (s : Session R) → Quiet s (collect_state cfg s).1
  unfolding collect_state is_change ends_with codes str_eq
  Quiet-collect_state cfg s = Quiet-and_query scheduler_words scheduler_cb s _ refl (
      Quiet-and_query script_words script_cb s _ refl (
        Quiet-and_query table_words (table_cb cfg) s _ refl (
          Quiet-and_query iface_words (iface_cb cfg) s _ refl (
            Quiet-and_query (lan_words cfg) lan_cb s (some no_state, s) refl
              (SentOnly-refl IsQuery s)))))

  Quiet-lookup : (s : Session R) (comment : Text) → Quiet s (lookup_mangle_exact s comment).2
  unfolding lookup_mangle_exact is_change ends_with codes str_eq
  Quiet-lookup s comment = and_asks _ _ _ refl (SentOnly-refl IsQuery s)

  Quiet-mangle_actions :
      (cfg : Settings) (es : List ExpectedMangle) (s : Session R)
      → Quiet s (mangle_actions cfg es s).1
  unfolding mangle_actions
  Quiet-mangle_actions cfg [] s = SentOnly-refl IsQuery s
  Quiet-mangle_actions cfg (e ∷ es) s =
      let once = Quiet-lookup s e.comment in
      let call = lookup_mangle_exact s e.comment in
      elim (Bool-cases (is_neg call.0)) [
        | inl h ↦ rw (h, mangle_actions) once
        | inr h ↦
            rw (h, mangle_actions)
              (SentOnly-trans IsQuery once (Quiet-mangle_actions cfg es call.2))
      ]

  Quiet-plan :
      (read_file : Text → Option Text) (cfg : Settings) (ctx : ApplyCtx) (s : Session R)
      → Quiet s (plan read_file cfg ctx s).1
  unfolding plan
  Quiet-plan read_file cfg ctx s =
      SentOnly-trans IsQuery
        (SentOnly-Issued IsQuery 0 (Issued-renderer_build read_file cfg IsQuery (λ w h. h) s))
        (Quiet-mangle_actions cfg mangle_expected (renderer_build read_file cfg s).1)

  -- Whatever the router answers and however it ends, a dry run sends no command that changes anything.
  pub SentOnly-apply_dry_run :
      (read_file : Text → Option Text) (cfg : Settings) (s : Session R)
      → SentOnly (λ words. is_change words ≡ false) s (apply_dry_run read_file cfg s).1
  unfolding apply_dry_run
  SentOnly-apply_dry_run read_file cfg s =
      let quiet = Quiet-collect_state cfg s in
      elim (Bool-cases (is_incomplete cfg.target_mode cfg)) [
        | inl h ↦ rw (h, apply_dry_run) (SentOnly-refl IsQuery s)
        | inr h ↦ elim (Option-cases (collect_state cfg s).0) [
          | inl e ↦ rw (h, apply_dry_run) (rw (e) quiet)
          | inr (ctx, e) ↦
              rw (h, apply_dry_run)
                (rw (e) (
                  SentOnly-trans IsQuery quiet
                    (Quiet-plan read_file cfg ctx (collect_state cfg s).1)))
        ]
      ]
