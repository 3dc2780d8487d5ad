-- ===== src/Tests/Tables.antt =====
-- Routers with scripts, schedulers and fixed rules, for src/stage.c and src/apply.c.
use susanin.Prelude.{Bool, true, List, [], ◌∷◌, ◌++◌, if◌then◌else◌}
use susanin.Prelude.Text.{Text, codes, str_eq}
use susanin.Ros.Sentence.{Sentence}
use susanin.Ros.Session.{Router, Session}
use susanin.Tests.World.{word, behind, done, row, with_lan}

-- A router with a script table: a name and a source each; the id is the name behind a star.
abbrev pub script_rows : List (Text × Text) → List Sentence
script_rows [] = done
script_rows (p ∷ ps) =
    (codes "!re"
      ∷ (codes "=.id=*" ++ p.0)
      ∷ (codes "=name=" ++ p.0)
      ∷ (codes "=source=" ++ p.1)
      ∷ codes "=invalid=false"
      ∷ [])
    ∷ script_rows ps

abbrev pub without : Text → List (Text × Text) → List (Text × Text)
without id [] = []
without id (p ∷ ps) = let more = without id ps in if str_eq (b'*' ∷ p.0) id then more else p ∷ more

abbrev pub script_table : Router
script_table = record {
  World = List (Text × Text);
  exchange = λ w words.
      if str_eq (word 0 words) (codes "/system/script/print")
      then (w, script_rows w)
      else if str_eq (word 0 words) (codes "/system/script/remove")
      then (without (behind (codes "=.id=") (word 1 words)) w, done)
      else if str_eq (word 0 words) (codes "/system/script/add")
      then (
        (behind (codes "=name=") (word 1 words), behind (codes "=source=") (word 2 words)) ∷ w,
        done,
      )
      else (w, done);
  later = λ w. w;
}

-- It holds a staged script of an earlier run, and one of the production scripts.
abbrev pub staged_before : Session (with_lan script_table)
staged_before = record {
  world =
      (codes "susanin-stage-fast", codes "old") ∷ (codes "auto-awg-fast", codes "production") ∷ [];
  is_open = true;
  pending = [];
  sent = [];
}

-- The fields of a fixed mangle rule, as a router shows them.
abbrev pub marking_rule : Text → Text → Text → List Text
marking_rule proto list mark =
    codes "=action=mark-connection"
    ∷ (codes "=protocol=" ++ proto)
    ∷ (codes "=dst-address-list=" ++ list)
    ∷ codes "=connection-mark=no-mark"
    ∷ (codes "=new-connection-mark=" ++ mark)
    ∷ codes "=in-interface-list=LAN"
    ∷ []

abbrev pub routing_rule : Text → List Text
routing_rule mark =
    codes "=action=mark-routing"
    ∷ (codes "=connection-mark=" ++ mark)
    ∷ codes "=new-routing-mark=vpn"
    ∷ codes "=in-interface-list=LAN"
    ∷ []

abbrev pub resolving_rule : Text → List Text
resolving_rule proto =
    codes "=action=mark-routing"
    ∷ (codes "=protocol=" ++ proto)
    ∷ codes "=new-routing-mark=vpn"
    ∷ codes "=dst-port=53"
    ∷ []

abbrev pub fixed_rule : Text → List Text
fixed_rule comment =
    if str_eq comment (codes "AUTO-AWG: L2 mark confirmed")
    then marking_rule (codes "tcp") (codes "auto_awg_ok_tcp") (codes "auto-awg-ok-conn")
    else if str_eq comment (codes "AUTO-AWG: L1 mark test")
    then marking_rule (codes "tcp") (codes "auto_awg_test_tcp") (codes "auto-awg-test-conn")
    else if str_eq comment (codes "AUTO-AWG: L2 mark confirmed UDP")
    then marking_rule (codes "udp") (codes "auto_awg_ok_udp") (codes "auto-awg-ok-conn")
    else if str_eq comment (codes "AUTO-AWG: L1 mark test UDP")
    then marking_rule (codes "udp") (codes "auto_awg_test_udp") (codes "auto-awg-test-conn")
    else if str_eq comment (codes "AUTO-AWG: L2 route confirmed")
    then routing_rule (codes "auto-awg-ok-conn")
    else if str_eq comment (codes "AUTO-AWG: L1 route test")
    then routing_rule (codes "auto-awg-test-conn")
    else if str_eq comment (codes "AUTO-AWG: router DNS UDP via tunnel")
    then resolving_rule (codes "udp")
    else resolving_rule (codes "tcp")

abbrev pub job : Text → Text → List Text
job name interval =
    codes "!re"
    ∷ (codes "=name=" ++ name)
    ∷ (codes "=interval=" ++ interval)
    ∷ (codes "=on-event=" ++ name)
    ∷ codes "=disabled=false"
    ∷ []

-- A router on which the controller is fully set up.
abbrev pub set_up : Router
set_up = record {
  World = Bool;
  exchange = λ w words.
      let comment = behind (codes "?comment=") (word 2 words) in
      if str_eq (word 0 words) (codes "/interface/print")
      then (w, row (codes "=name=wg0" ∷ codes "=running=true" ∷ codes "=disabled=false" ∷ []))
      else if str_eq (word 0 words) (codes "/routing/table/print")
      then (w, row (codes "=name=vpn" ∷ []))
      else if str_eq (word 0 words) (codes "/system/script/print")
      then (
        w,
        script_rows (
            (codes "auto-awg-health", codes "x")
            ∷ (codes "auto-awg-fast", codes "x")
            ∷ (codes "auto-awg-detect", codes "x")
            ∷ (codes "auto-awg-judge", codes "x")
            ∷ []),
      )
      else if str_eq (word 0 words) (codes "/system/scheduler/print")
      then (
        w,
        job (codes "auto-awg-health") (codes "3s")
            ∷ job (codes "auto-awg-fast") (codes "1s")
            ∷ job (codes "auto-awg-detect") (codes "2s")
            ∷ job (codes "auto-awg-judge") (codes "1s")
            ∷ done,
      )
      else (w, row ((codes "=comment=" ++ comment) ∷ fixed_rule comment));
  later = λ w. w;
}

abbrev pub applied : Session (with_lan set_up)
applied = record { world = true; is_open = true; pending = []; sent = [] }

abbrev pub resourced : Text → Text → List (Text × Text) → List (Text × Text)
resourced id source [] = []
resourced id source (p ∷ ps) =
    let more = resourced id source ps in
    if str_eq (b'*' ∷ p.0) id then (p.0, source) ∷ more else p ∷ more

abbrev pub paused_job : Text → List Text
paused_job name =
    codes "!re"
    ∷ (codes "=.id=*" ++ name)
    ∷ (codes "=name=" ++ name)
    ∷ (codes "=on-event=" ++ name)
    ∷ codes "=disabled=true"
    ∷ []

-- The script table with schedulers of its own and sources that can be set.
abbrev pub promotable : Router
promotable = record {
  World = List (Text × Text);
  exchange = λ w words.
      if str_eq (word 0 words) (codes "/system/scheduler/print")
      then (
        w,
        paused_job (codes "auto-awg-health")
            ∷ paused_job (codes "auto-awg-fast")
            ∷ paused_job (codes "auto-awg-detect")
            ∷ paused_job (codes "auto-awg-judge")
            ∷ done,
      )
      else if str_eq (word 0 words) (codes "/system/script/set")
      then (
        resourced (behind (codes "=.id=") (word 1 words)) (behind (codes "=source=") (word 2 words))
            w,
        done,
      )
      else script_table.exchange w words;
  later = λ w. w;
}

-- The four scripts are staged, and the production scripts are old.
abbrev pub ready_to_promote : Session (with_lan promotable)
ready_to_promote = record {
  world =
      (codes "susanin-stage-health", codes "x")
      ∷ (codes "susanin-stage-fast", codes "x")
      ∷ (codes "susanin-stage-detect", codes "x")
      ∷ (codes "susanin-stage-judge", codes "x")
      ∷ (codes "auto-awg-health", codes "o")
      ∷ (codes "auto-awg-fast", codes "o")
      ∷ (codes "auto-awg-detect", codes "o")
      ∷ (codes "auto-awg-judge", codes "o")
      ∷ [];
  is_open = true;
  pending = [];
  sent = [];
}
