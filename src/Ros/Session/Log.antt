-- ===== src/Ros/Session/Log.antt =====
-- Which commands a piece of the controller has sent, and how many of them change the router.
use susanin.Prelude.{ℕ, ◌+◌, ◌≤◌, ◌≡◌, refl, sym, ◌∙◌, Bool, false, not, ◌||◌, List, [], ◌∷◌, ◌++◌}
use susanin.Prelude.{Option, All, All-append, All-map, arith, Bool-cases, inl, inr, if◌then◌else◌}
use susanin.Prelude.Int.{is_neg}
use susanin.Prelude.Text.{Text, codes, str_eq}
use susanin.Ros.Sentence.{Sentence}
use susanin.Ros.Command.{Callback, Ending, finished, fatal, broken, stuck}
use susanin.Ros.Session.{Router, Session, settle, issue, has_no_words, ros_command, sleep}
use mathlib.Core.List.{append_assoc, append-nil}

unfoldable pub ends_with : Text → Text → Bool
ends_with suffix [] = str_eq suffix []
ends_with suffix (c ∷ cs) = str_eq suffix (c ∷ cs) || ends_with suffix cs

-- Every RouterOS command changes the router but the `print` ones.
unfoldable pub is_change : List Text → Bool
is_change [] = false
is_change (w ∷ ws) = not (ends_with (codes "/print") w)

unfoldable pub changes : List (List Text) → ℕ
changes [] = 0
changes (c ∷ cs) = (if is_change c then 1 else 0) + changes cs

pub changes-append : (xs ys : List (List Text)) → changes (xs ++ ys) ≡ changes xs + changes ys
unfolding changes
changes-append [] ys = omega arith
changes-append (x ∷ xs) ys = omega (arith, changes-append xs ys)

-- Between `s` and `s'` only commands that satisfy `P` were sent, and at most `k` that change anything.
pub record Issued {R : Router} (P : List Text → Type 0) (k : ℕ) (s s' : Session R) : Type 0 where
  pub commands : List (List Text)
  pub sent_then : s'.sent ≡ s.sent ++ commands
  pub allowed : All P commands
  pub within : changes commands ≤ k

module _ {R : Router} (P : List Text → Type 0) where
  pub Issued-refl : (k : ℕ) (s : Session R) → Issued P k s s
  unfolding changes
  Issued-refl k s = record {
    commands = [];
    sent_then = sym (append-nil s.sent);
    allowed = tt;
    within = omega arith;
  }

  pub Issued-trans :
      (k m n : ℕ) {s t u : Session R} → k + m ≤ n → Issued P k s t → Issued P m t u → Issued P n s u
  Issued-trans k m n {s} {t} {u} h a b = record {
    commands = a.commands ++ b.commands;
    sent_then = b.sent_then ∙ rw a.sent_then (append_assoc s.sent a.commands b.commands);
    allowed = All-append P a.commands b.commands a.allowed b.allowed;
    within = rw changes-append (omega (arith, a.within, b.within));
  }

  pub Issued-weaken : (k m : ℕ) {s t : Session R} → k ≤ m → Issued P k s t → Issued P m s t
  Issued-weaken k m h a = record {
    commands = a.commands;
    sent_then = a.sent_then;
    allowed = a.allowed;
    within = omega (arith, a.within);
  }

  sent-settle :
      {C : Type 0} (s : Session R) (e : Ending (List Sentence) C) (old : C)
      → (settle s e old).2.sent ≡ s.sent
  unfolding settle
  sent-settle s (finished rc ctx left) old = refl
  sent-settle s (fatal ctx) old = refl
  sent-settle s (broken ctx) old = refl
  sent-settle s stuck old = refl

  one_command :
      (s s' : Session R) (words : List Text) (k : ℕ)
      → s'.sent ≡ s.sent ++ (words ∷ [])
      → P words
      → (if is_change words then 1 else 0) ≤ k
      → Issued P k s s'
  unfolding changes
  one_command s s' words k e p h = record {
    commands = words ∷ [];
    sent_then = e;
    allowed = (p, tt);
    within = omega (arith, h);
  }

  -- One command is sent once, or not at all on a closed connection.
  pub Issued-ros_command :
      {C : Type 0} (k : ℕ) (s : Session R) (words : List Text) (cb : Option (Callback C)) (ctx : C)
      → P words
      → (if is_change words then 1 else 0) ≤ k
      → Issued P k s (ros_command s words cb ctx).2
  unfolding ros_command
  Issued-ros_command k s words cb ctx p h =
      elim (Bool-cases (not s.is_open || has_no_words words)) [
        | inl e ↦ rw (e) (Issued-refl k s)
        | inr e ↦ rw (e) (one_command s _ words k (sent-settle (issue s words) _ ctx) p h)
      ]

  pub Issued-sleep : (k : ℕ) (s : Session R) → Issued P k s (sleep s)
  unfolding sleep changes
  Issued-sleep k s = record {
    commands = [];
    sent_then = sym (append-nil s.sent);
    allowed = tt;
    within = omega arith;
  }

-- Only commands that satisfy `P` were sent.
pub record SentOnly {R : Router} (P : List Text → Type 0) (s s' : Session R) : Type 0 where
  pub commands : List (List Text)
  pub sent_then : s'.sent ≡ s.sent ++ commands
  pub allowed : All P commands

module _ {R : Router} (P : List Text → Type 0) where
  pub SentOnly-refl : (s : Session R) → SentOnly P s s
  SentOnly-refl s = record { commands = []; sent_then = sym (append-nil s.sent); allowed = tt }

  pub SentOnly-trans : {s t u : Session R} → SentOnly P s t → SentOnly P t u → SentOnly P s u
  SentOnly-trans {s} {t} {u} a b = record {
    commands = a.commands ++ b.commands;
    sent_then = b.sent_then ∙ rw a.sent_then (append_assoc s.sent a.commands b.commands);
    allowed = All-append P a.commands b.commands a.allowed b.allowed;
  }

  pub SentOnly-ros_command :
      {C : Type 0} (s : Session R) (words : List Text) (cb : Option (Callback C)) (ctx : C)
      → P words
      → SentOnly P s (ros_command s words cb ctx).2
  SentOnly-ros_command s words cb ctx p =
      let i =
        Issued-ros_command P (if is_change words then 1 else 0) s words cb ctx p (omega arith) in
      record { commands = i.commands; sent_then = i.sent_then; allowed = i.allowed }

  pub SentOnly-sleep : (s : Session R) → SentOnly P s (sleep s)
  unfolding sleep
  SentOnly-sleep s = record { commands = []; sent_then = sym (append-nil s.sent); allowed = tt }

  pub SentOnly-Issued : (k : ℕ) {s t : Session R} → Issued P k s t → SentOnly P s t
  SentOnly-Issued k i = record {
    commands = i.commands;
    sent_then = i.sent_then;
    allowed = i.allowed;
  }

pub SentOnly-mono :
    {R : Router} (P Q : List Text → Type 0) {s t : Session R}
    → ((words : List Text) → P words → Q words)
    → SentOnly P s t
    → SentOnly Q s t
SentOnly-mono P Q f i = record {
  commands = i.commands;
  sent_then = i.sent_then;
  allowed = All-map P Q f i.commands i.allowed;
}

-- A command that does not fail was sent, once.
pub ros_command_sent :
    {R : Router} {C : Type 0} (s : Session R) (words : List Text) (cb : Option (Callback C))
    (ctx : C)
    → is_neg (ros_command s words cb ctx).0 ≡ false
    → (ros_command s words cb ctx).2.sent ≡ s.sent ++ (words ∷ [])
unfolding ros_command
ros_command_sent s words cb ctx h = elim (Bool-cases (not s.is_open || has_no_words words)) [
  | inl e ↦ cc (rw e at h)
  | inr e ↦ rw (e) (sent-settle (λ w. Unit {0}) (issue s words) _ ctx)
]
