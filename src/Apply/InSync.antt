-- ===== src/Apply/InSync.antt =====
-- About a dry run of src/apply.c that reports no change.
use susanin.Prelude.{◌≡◌, true, false, List, [], ◌∷◌, Option, some, ◌==◌, ◌⊎◌, All}
use susanin.Prelude.Int.{is_neg}
use susanin.Prelude.Text.{Text}
use susanin.Ros.Session.{Router, Session}
use susanin.Config.Options.{Settings, routing_table}
use susanin.Renderer.Build.{RenderedScript, RenderBundle, renderer_build}
use susanin.Apply.Rules.{ExpectedMangle, mangle_expected, lookup_mangle_exact, mangle_matches}
use susanin.Apply.{ApplyCtx, ScriptSeen, collect_state}

-- Each script is there with the size and the fingerprint of the rendered one.
pub data ScriptsKept : List (Option ScriptSeen) → List RenderedScript → Type 0 where
  no_scripts : {ds : List RenderedScript} → ScriptsKept [] ds
  script_kept :
      {seen : ScriptSeen} {d : RenderedScript} {slots : List (Option ScriptSeen)}
      {ds : List RenderedScript}
      → seen.bytes ≡ d.bytes
      → seen.fp ≡ d.fp
      → ScriptsKept slots ds
      → ScriptsKept (some seen ∷ slots) (d ∷ ds)

-- Looked up in turn, each fixed rule is there once and as expected.
pub data RulesKept {R : Router} (cfg : Settings)
    : List ExpectedMangle → Session R → Session R → Type 0 where
  no_rules : {s : Session R} → RulesKept cfg [] s s
  rule_kept :
      {e : ExpectedMangle} {es : List ExpectedMangle} {s s' : Session R}
      → is_neg (lookup_mangle_exact s e.comment).0 ≡ false
      → (lookup_mangle_exact s e.comment).1.matches ≡ 1
      → mangle_matches (lookup_mangle_exact s e.comment).1.out e cfg ≡ true
      → RulesKept cfg es (lookup_mangle_exact s e.comment).2 s'
      → RulesKept cfg (e ∷ es) s s'

-- What the answers amount to: nothing blocks, the scripts could be rendered, and everything is kept.
pub record Ready (cfg : Settings) (ctx : ApplyCtx) (desired : RenderBundle) : Type 0 where
  pub members : (ctx.lan_members == 0) ≡ false
  pub egress :
      (cfg.target_mode ≡ routing_table) ⊎ ((ctx.egress_found ≡ true) × (ctx.egress_running ≡ true))
  pub table : ctx.table_found ≡ true
  pub scripts : ScriptsKept ctx.scripts desired.scripts
  pub schedulers : All (λ o. o ≡ some true) ctx.schedulers

-- What a dry run has found that reports no change.
pub record InSync {R : Router} (read_file : Text → Option Text) (cfg : Settings) (s s' : Session R)
    : Type 0 where
  pub ctx : ApplyCtx
  pub collected : (collect_state cfg s).0 ≡ some ctx
  pub desired : RenderBundle
  pub rendered : (renderer_build read_file cfg (collect_state cfg s).1).0 ≡ some desired
  pub ready : Ready cfg ctx desired
  pub rules :
      RulesKept cfg mangle_expected (renderer_build read_file cfg (collect_state cfg s).1).1 s'
