-- ===== src/Tests/Applying.antt =====
-- A dry run of src/apply.c on a router that is set up.
use susanin.Prelude.{◌≡◌, false, Option, some, [], ◌∷◌}
use susanin.Config.Load.{defaults}
use susanin.Tests.World.{with_lan}
use susanin.Tests.Tables.{set_up, applied}
use susanin.Ros.Session.Log.{SentOnly, is_change}
use susanin.Apply.Quiet.{SentOnly-apply_dry_run}
use susanin.Apply.InSync.{InSync}
use susanin.Prelude.Text.{Text, codes}
use susanin.Ros.Session.{Session}
use susanin.Config.Options.{Settings}
use susanin.Apply.{Report, keep, apply_dry_run}

abbrev cfg : Settings
cfg = record defaults { egress = codes "wg0"; table = codes "vpn" }

-- Every template holds one byte.
abbrev one_byte : Text → Option Text
one_byte path = some (codes "x")

abbrev ran : Option Report × Session (with_lan set_up)
ran = apply_dry_run one_byte cfg applied

abbrev nothing_to_do : Report
nothing_to_do = record {
  actions =
      keep ∷ keep ∷ keep ∷ keep ∷ keep ∷ keep ∷ keep ∷ keep ∷ keep ∷ keep ∷ keep ∷ keep ∷ keep
      ∷ keep ∷ keep ∷ keep ∷ [];
  blockers = 0;
}

SentOnly-apply_dry_run_example :
    SentOnly (λ words. is_change words ≡ false) applied (apply_dry_run one_byte cfg applied).1
SentOnly-apply_dry_run_example = SentOnly-apply_dry_run one_byte cfg applied
