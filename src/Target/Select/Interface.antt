-- ===== src/Target/Select/Interface.antt =====
-- About `target_set_interface` of src/target.c.
use susanin.Prelude.{◌≡◌, Bool, true, false, List, none, some}
use susanin.Prelude.Text.{Text, codes}
use susanin.Ros.Sentence.{Sentence}
use susanin.Ros.Session.{Router, Session}
use susanin.Config.Options.{interface, Settings}
use susanin.Target.Interfaces.{TargetIface, find_iface, load_ifaces}
use susanin.Target.Routes.{iface_table, route_words, ensure_dedicated_table}
use susanin.Target.Routes.Unique.{unanimous, shown_names}
use susanin.Target.Select.Saved.{SavedAs, Answered}
use susanin.Target.Select.{Selection}

-- Which table an interface was saved with: the one that every default route through it shares, or else
-- the controller's own, with a default route through the interface.
pub data TableFor (R : Router) (name : Text) (replies : List Sentence) (table : Text) : Type 0 where
  shared :
      unanimous (shown_names (iface_table name) replies) ≡ some table
      → TableFor R name replies table
  own :
      (s s' : Session R)
      → unanimous (shown_names (iface_table name) replies) ≡ none
      → ensure_dedicated_table s name ≡ (true, s')
      → table ≡ codes "susanin"
      → TableFor R name replies table

module _ {R : Router} (writes : Bool) (cfg : Settings) (name : Text) where
  -- What a selection that succeeds has seen and saved.
  pub record InterfaceSet (s : Session R) (sel : Selection) : Type 0 where
    pub ifaces : List TargetIface
    pub asked : Session R
    pub loaded : load_ifaces s ≡ (some ifaces, asked)
    pub iface : TargetIface
    pub known : find_iface ifaces name ≡ some iface
    pub enabled : iface.disabled ≡ false
    pub replies : List Sentence
    pub routes : Answered asked route_words replies
    pub table : Text
    pub table_for : TableFor R name replies table
    pub saved : SavedAs cfg interface name name table sel

  -- What is seen and saved behind the interface.
  record RoutesSet (s : Session R) (sel : Selection) : Type 0 where
    replies : List Sentence
    routes : Answered s route_words replies
    table : Text
    table_for : TableFor R name replies table
    saved : SavedAs cfg interface name name table sel
