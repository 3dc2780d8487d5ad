-- ===== src/Tests/World.antt =====
-- A router on which the collection of src/gc.c finds one lazy rule without state.
use susanin.Prelude.{
  ℕ, zero, suc, Bool, true, false, List, [], ◌∷◌, ◌++◌, none, some, if◌then◌else◌, ◌&&◌, ◌||◌,
}
use susanin.Prelude.Text.{Text, codes, str_eq, after_prefix}
use susanin.Ros.Sentence.{Sentence}
use susanin.Ros.Session.{Router, Session}

abbrev pub word : ℕ → List Text → Text
word n [] = []
word zero (w ∷ ws) = w
word (suc n) (w ∷ ws) = word n ws

-- What stands behind `prefix`.
abbrev pub behind : Text → Text → Text
behind prefix w = elim (after_prefix prefix w) [ none ↦ [] | some rest ↦ rest ]

abbrev pub done : List Sentence
done = (codes "!done" ∷ []) ∷ []

abbrev pub count : Text → List Sentence
count n = (codes "!done" ∷ (codes "=ret=" ++ n) ∷ []) ∷ []

abbrev pub row : List Text → List Sentence
row attrs = (codes "!re" ∷ attrs) ∷ done

abbrev pub lazy_row : List Sentence
lazy_row = row (
    codes "=.id=*7"
    ∷ codes "=comment=AUTO-AWG: P tcp 443 TEST"
    ∷ codes "=protocol=tcp"
    ∷ codes "=dst-port=443"
    ∷ codes "=dst-address-list=auto_awg_test_tcp_443"
    ∷ [])

-- The mangle menu, with the lazy rule there or not.
abbrev pub mangle : Bool → List Text → List Sentence
mangle there words =
    if str_eq (word 1 words) (codes "=count-only=")
    then (if there && str_eq (word 2 words) (codes "?new-connection-mark=auto-awg-test-conn")
        then count (codes "1")
        else count (codes "0"))
    else if str_eq (word 1 words) (codes "=.proplist=comment,disabled")
    then row (
        (codes "=comment=" ++ behind (codes "?comment=") (word 2 words))
        ∷ codes "=disabled=false"
        ∷ [])
    else if there
        && (str_eq (word 2 words) (codes "?new-connection-mark=auto-awg-test-conn")
            || str_eq (word 1 words) (codes "=.proplist=.id,comment"))
    then lazy_row
    else done

abbrev pub answer : Bool → List Text → List Sentence
answer there words =
    let name = behind (codes "?name=") (word 2 words) in
    if str_eq (word 0 words) (codes "/system/script/print")
    then row ((codes "=name=" ++ name) ∷ codes "=source=x" ∷ codes "=invalid=false" ∷ [])
    else if str_eq (word 0 words) (codes "/system/scheduler/print")
    then row (
        codes "=.id=*1"
        ∷ (codes "=name=" ++ name)
        ∷ (codes "=on-event=" ++ name)
        ∷ codes "=disabled=false"
        ∷ [])
    else if str_eq (word 0 words) (codes "/ip/firewall/mangle/print")
    then mangle there words
    else if str_eq (word 1 words) (codes "=count-only=")
    then count (codes "0")
    else done

abbrev pub one_rule : Router
one_rule = record {
  World = Bool;
  exchange = λ there words.
      let replies = answer there words in
      if str_eq (word 0 words) (codes "/ip/firewall/mangle/remove")
      then (false, replies)
      else (there, replies);
  later = λ there. there;
}

abbrev pub start : Session one_rule
start = record { world = true; is_open = true; pending = []; sent = [] }

-- A connection that the router has closed.
abbrev pub closed : Session one_rule
closed = record { world = true; is_open = false; pending = []; sent = [] }

-- The same router, but it refuses to show its schedulers.
abbrev pub no_schedulers : Router
no_schedulers = record {
  World = Bool;
  exchange = λ there words.
      if str_eq (word 0 words) (codes "/system/scheduler/print")
      then (there, (codes "!trap" ∷ []) ∷ done)
      else (there, answer there words);
  later = λ there. there;
}

abbrev pub refusing : Session no_schedulers
refusing = record { world = true; is_open = true; pending = []; sent = [] }

-- A router with one address in a list of the old format, as long as it was not removed.
abbrev pub one_entry : Router
one_entry = record {
  World = Bool;
  exchange = λ there words.
      if str_eq (word 0 words) (codes "/ip/firewall/address-list/remove")
      then (false, done)
      else if there && str_eq (word 0 words) (codes "/ip/firewall/address-list/print")
      then (there, row (codes "=.id=*2" ∷ codes "=list=auto_awg_ok_tcp" ∷ []))
      else (there, done);
  later = λ there. there;
}

abbrev pub listed : Session one_entry
listed = record { world = true; is_open = true; pending = []; sent = [] }

-- A router with one adaptive mangle rule, enabled as long as it was not disabled.
abbrev pub one_auto : Router
one_auto = record {
  World = Bool;
  exchange = λ enabled words.
      if str_eq (word 0 words) (codes "/ip/firewall/mangle/set") then (false, done) else (
        enabled,
        row (
            codes "=.id=*9"
            ∷ codes "=comment=AUTO-AWG: L1 mark test"
            ∷ (if enabled then codes "=disabled=false" else codes "=disabled=true")
            ∷ []),
      );
  later = λ enabled. enabled;
}

abbrev pub marking : Session one_auto
marking = record { world = true; is_open = true; pending = []; sent = [] }

-- A router with schedulers that can be disabled, and nothing else.
abbrev pub schedulers : Router
schedulers = record {
  World = Bool;
  exchange = λ disabled words.
      if str_eq (word 0 words) (codes "/system/scheduler/set")
      then (true, done)
      else if str_eq (word 0 words) (codes "/system/scheduler/print")
      then (
        disabled,
        row (
            codes "=.id=*1"
            ∷ (codes "=name=" ++ behind (codes "?name=") (word 2 words))
            ∷ (if disabled then codes "=disabled=true" else codes "=disabled=false")
            ∷ []),
      )
      else (disabled, done);
  later = λ disabled. disabled;
}

abbrev pub scheduled : Session schedulers
scheduled = record { world = false; is_open = true; pending = []; sent = [] }

-- A router that accepts every command and has nothing to show.
abbrev pub agreeable : Router
agreeable = record { World = Bool; exchange = λ w words. (w, done); later = λ w. w }

abbrev pub empty_router : Session agreeable
empty_router = record { world = true; is_open = true; pending = []; sent = [] }

-- A router that lists one address of the bypass list and one of another.
abbrev pub bypassing : Router
bypassing = record {
  World = Bool;
  exchange = λ w words.
      if str_eq (word 0 words) (codes "/ip/firewall/address-list/print")
      then (
        w,
        (codes "!re" ∷ codes "=.id=*3" ∷ codes "=list=vpn_direct" ∷ [])
            ∷ row (codes "=.id=*4" ∷ codes "=list=office" ∷ []),
      )
      else (w, done);
  later = λ w. w;
}

abbrev pub bypassed : Session bypassing
bypassed = record { world = true; is_open = true; pending = []; sent = [] }

-- A router with one interface, a table with a default route through it, and another route.
abbrev pub tunnelled : Router
tunnelled = record {
  World = Bool;
  exchange = λ w words.
      if str_eq (word 0 words) (codes "/interface/print")
      then (w, row (codes "=name=wg0" ∷ codes "=type=wireguard" ∷ codes "=running=true" ∷ []))
      else if str_eq (word 0 words) (codes "/routing/table/print")
      then (w, row (codes "=name=vpn" ∷ []))
      else if str_eq (word 0 words) (codes "/ip/route/print")
      then (
        w,
        (codes "!re"
              ∷ codes "=dst-address=0.0.0.0/0"
              ∷ codes "=routing-table=main"
              ∷ codes "=gateway=10.0.0.1"
              ∷ [])
            ∷ row (
                codes "=dst-address=0.0.0.0/0"
                ∷ codes "=routing-table=vpn"
                ∷ codes "=immediate-gw=10.9.0.1%wg0"
                ∷ []),
      )
      else (w, done);
  later = λ w. w;
}

abbrev pub untouched : Session tunnelled
untouched = record { world = true; is_open = true; pending = []; sent = [] }

-- A router that also shows a LAN and the address of a tunnel.
abbrev pub with_lan : Router → Router
with_lan r = record {
  World = r.World;
  exchange = λ w words.
      if str_eq (word 0 words) (codes "/interface/list/member/print")
      then (w, row (codes "=list=LAN" ∷ codes "=interface=bridge" ∷ []))
      else if str_eq (word 0 words) (codes "/ip/address/print")
      then (
        w,
        (codes "!re"
              ∷ codes "=interface=bridge"
              ∷ codes "=address=192.168.1.1/24"
              ∷ codes "=network=192.168.1.0"
              ∷ [])
            ∷ row (
                codes "=interface=wg0"
                ∷ codes "=address=10.9.0.2/32"
                ∷ codes "=network=10.9.0.2"
                ∷ []),
      )
      else r.exchange w words;
  later = r.later;
}

abbrev pub rendering : Session (with_lan one_rule)
rendering = record { world = true; is_open = true; pending = []; sent = [] }

abbrev pub rendering_refused : Session (with_lan no_schedulers)
rendering_refused = record { world = true; is_open = true; pending = []; sent = [] }
