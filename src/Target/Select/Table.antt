-- ===== src/Target/Select/Table.antt =====
-- About `target_set_routing_table` of src/target.c.
use susanin.Prelude.{◌≡◌, Bool, true, false, List, [], Option, none, some, any}
use susanin.Prelude.Text.{Text, codes, str_eq}
use susanin.Ros.Sentence.{Sentence}
use susanin.Ros.Session.{Router, Session}
use susanin.Config.Options.{routing_table, Settings}
use susanin.Target.Interfaces.{TargetIface, load_ifaces, table_list_cb, table_words, collect}
use susanin.Target.Routes.{nothing_seen, TableRoute, is_default_of, route_words}
use susanin.Target.Routes.Unique.{unanimous, shown_names, default_iface}
use susanin.Target.Select.{Selection}
use susanin.Target.Select.Saved.{SavedAs, Answered, Collected}

-- The name, or the empty text for none.
abbrev pub or_empty : Option Text → Text
or_empty none = []
or_empty (some name) = name

abbrev no_route : TableRoute
no_route = record { default_found = false; egress = nothing_seen }

module _ {R : Router} (writes : Bool) (cfg : Settings) (name : Text) where
  -- What is seen and saved behind the interfaces: an enabled default route of the table is shown, and the
  -- egress is the interface that all its default routes share, if they share one.
  pub record RouteSet (ifaces : List TargetIface) (s : Session R) (sel : Selection) : Type 0 where
    pub replies : List Sentence
    pub routes : Answered s route_words replies
    pub has_default : any (is_default_of name) replies ≡ true
    pub saved :
        SavedAs cfg routing_table name
          (or_empty (unanimous (shown_names (default_iface name ifaces) replies)))
          name
          sel

  -- What a selection that succeeds has seen and saved.
  pub record TableSet (s : Session R) (sel : Selection) : Type 0 where
    pub not_main : str_eq name (codes "main") ≡ false
    pub names : List Text
    pub tables : Collected s table_words table_list_cb [] names
    pub listed : any (λ t. str_eq t name) names ≡ true
    pub ifaces : List TargetIface
    pub loaded : (load_ifaces (collect s table_words table_list_cb []).1).0 ≡ some ifaces
    pub route : RouteSet ifaces (load_ifaces (collect s table_words table_list_cb []).1).1 sel
