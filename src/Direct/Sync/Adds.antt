-- ===== src/Direct/Sync/Adds.antt =====
-- About `direct_sync` of src/direct.c: what it adds.
use susanin.Prelude.{
  ℕ, ◌≡◌, refl, ◌∙◌, true, false, List, [], ◌∷◌, ◌++◌, Option, none, some, All, ltb, Bool,
  if◌then◌else◌, arith, Bool-cases, inl, inr,
}
use susanin.Prelude.Int.{is_neg}
use susanin.Prelude.Text.{Text, codes, str_eq}
use susanin.Prelude.Decimal.{is_empty}
use susanin.Ros.Session.{Router, Session, ros_command}
use susanin.Ros.Session.Log.{
  SentOnly, SentOnly-refl, SentOnly-ros_command, ends_with, ros_command_sent,
}
use susanin.Config.Options.{Settings}
use susanin.Direct.Value.{DirectKind, ip, domain}
use susanin.Direct.Collect.{print_words, remove_words, first_auto_cb}
use susanin.Direct.Sync.{
  bypass_scan_words, bypass_words, ip_words, domain_words, entry_words, flush_words,
  add_bypass_rule, clear, flush,
}
use susanin.Direct.Sync.Effects.{clear-SentOnly}
use mathlib.Core.List.{append_assoc, append-nil}

unfoldable pub is_add : List Text → Bool
unfolding ends_with codes str_eq
is_add [] = false
is_add (w ∷ ws) = ends_with (codes "/add") w

-- The commands that add an object.
unfoldable pub additions : List (List Text) → List (List Text)
unfolding is_add
additions [] = []
additions (c ∷ cs) = let rest = additions cs in if is_add c then c ∷ rest else rest

additions-append : (xs ys : List (List Text)) → additions (xs ++ ys) ≡ additions xs ++ additions ys
unfolding additions
additions-append [] ys = refl
additions-append (x ∷ xs) ys = rw (additions-append xs ys) (ground arith)

abbrev AddsNothing : List Text → Type 0
AddsNothing words = is_add words ≡ false

additions-nil : (cs : List (List Text)) → All AddsNothing cs → additions cs ≡ []
unfolding additions
additions-nil [] h = refl
additions-nil (c ∷ cs) (e, h) = rw (additions-nil cs h) (ground arith)

-- Between `s` and `s'` the commands that add something are these, in this order.
pub record Adds {R : Router} (commands : List (List Text)) (s s' : Session R) : Type 0 where
  pub all_sent : List (List Text)
  pub sent_then : s'.sent ≡ s.sent ++ all_sent
  pub adding : additions all_sent ≡ commands

pub entry_words-adds : (kind : DirectKind) (value : Text) → is_add (entry_words kind value) ≡ true
unfolding entry_words ip_words domain_words is_add
entry_words-adds ip value = refl
entry_words-adds domain value = refl

module _ {R : Router} where
  pub Adds-trans :
      (xs ys : List (List Text)) {s t u : Session R}
      → Adds xs s t
      → Adds ys t u
      → Adds (xs ++ ys) s u
  Adds-trans xs ys {s} {t} {u} a b = record {
    all_sent = a.all_sent ++ b.all_sent;
    sent_then = b.sent_then ∙ rw a.sent_then (append_assoc s.sent a.all_sent b.all_sent);
    adding = additions-append a.all_sent b.all_sent ∙ rw a.adding (rw b.adding refl);
  }

  pub Adds-SentOnly : {s t : Session R} → SentOnly AddsNothing s t → Adds [] s t
  Adds-SentOnly o = record {
    all_sent = o.commands;
    sent_then = o.sent_then;
    adding = additions-nil o.commands o.allowed;
  }

  pub Adds-refl : (s : Session R) → Adds [] s s
  Adds-refl s = Adds-SentOnly (SentOnly-refl AddsNothing s)

  -- Commands that add nothing may follow.
  pub Adds-then :
      (xs : List (List Text)) {s t u : Session R} → Adds xs s t → Adds [] t u → Adds xs s u
  Adds-then xs a b = rw append-nil at (Adds-trans xs [] a b)

  pub Adds-one :
      (s s' : Session R) (words : List Text)
      → s'.sent ≡ s.sent ++ (words ∷ [])
      → is_add words ≡ true
      → Adds (words ∷ []) s s'
  unfolding additions
  Adds-one s s' words e h = record { all_sent = words ∷ []; sent_then = e; adding = rw h refl }

  pub Adds-clear : (s : Session R) → Adds [] s (clear s).1
  unfolding print_words remove_words is_add
  Adds-clear s =
      Adds-SentOnly
        (clear-SentOnly AddsNothing refl refl refl (λ id. refl) (λ id. refl) (λ id. refl) s)

  pub Adds-flush : (domains : ℕ) (s : Session R) → Adds [] s (flush domains s)
  unfolding flush is_add
  Adds-flush domains s = elim (Bool-cases (ltb 0 domains)) [
    | inl e ↦
        rw (e, flush) (Adds-SentOnly (SentOnly-ros_command AddsNothing s flush_words none tt refl))
    | inr e ↦ rw (e, flush) (Adds-refl s)
  ]

  module _ (cfg : Settings) where
    pub Adds-add_bypass_rule :
        (s : Session R)
        → is_neg (add_bypass_rule s cfg).0 ≡ false
        → (first : Option Text) × Adds (bypass_words cfg first ∷ []) s (add_bypass_rule s cfg).1
    unfolding add_bypass_rule bypass_words is_add
    Adds-add_bypass_rule s h =
        let scan = ros_command s bypass_scan_words (some first_auto_cb) none in
        let scanned =
          SentOnly-ros_command AddsNothing s bypass_scan_words (some first_auto_cb) none refl in
        let words = bypass_words cfg scan.1 in
        let call = ros_command scan.2 words none tt in
        elim (Bool-cases (is_empty cfg.table)) [
          | inl e ↦ cc (rw (e, add_bypass_rule) at h)
          | inr e ↦ elim (Bool-cases (is_neg scan.0)) [
            | inl f ↦ cc (rw f at (rw (e, add_bypass_rule) at h))
            | inr f ↦ (
              scan.1,
              rw (e, add_bypass_rule)
                  (rw f (
                    Adds-trans [] (words ∷ []) (Adds-SentOnly scanned) (
                      Adds-one scan.2 call.2 words
                        (ros_command_sent scan.2 words none tt
                          (rw f at (rw (e, add_bypass_rule) at h)))
                        refl))),
            )
          ]
        ]
