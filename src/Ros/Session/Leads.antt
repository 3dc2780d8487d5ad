-- ===== src/Ros/Session/Leads.antt =====
-- How one session becomes another through the client's commands and waits alone.
use susanin.Prelude.{List, Option}
use susanin.Prelude.Text.{Text}
use susanin.Ros.Command.{Callback}
use susanin.Ros.Session.{Router, Session, ros_command, sleep}

-- `t` is what `s` becomes when commands that satisfy `P` are run and the client sleeps, in some order.
pub data Leads {R : Router} (P : List Text → Type 0) : Session R → Session R → Type 1 where
  stays : {s : Session R} → Leads P s s
  asks :
      {C : Type 0} {s t : Session R} (words : List Text) (cb : Option (Callback C)) (ctx : C)
      → P words
      → Leads P (ros_command s words cb ctx).2 t
      → Leads P s t
  waits : {s t : Session R} → Leads P (sleep s) t → Leads P s t

pub Leads-trans :
    {R : Router} {P : List Text → Type 0} {s t u : Session R}
    → Leads P s t
    → Leads P t u
    → Leads P s u
Leads-trans stays b = b
Leads-trans (asks words cb ctx p a) b = asks words cb ctx p (Leads-trans a b)
Leads-trans (waits a) b = waits (Leads-trans a b)
