-- ===== src/StateCleanup/Disable/Laws.antt =====
-- About `susanin_disable_adaptive_mangle` of src/state_cleanup.c.
use susanin.Prelude.{
  ℕ, ◌+◌, ◌^◌, ◌<◌, ◌≡◌, refl, ap, true, false, List, [], ◌∷◌, ◌++◌, Option, none, some,
}
use susanin.Prelude.{All, length, arith, if◌then◌else◌, length-append}
use susanin.Prelude.Int.{ℤ, is_neg}
use susanin.Prelude.Text.{Text}
use susanin.Ros.Sentence.{Sentence}
use susanin.Ros.Command.{is_done, is_trap}
use susanin.Ros.Command.Success.{feed, Complete}
use susanin.Ros.Session.{Router, Session, ros_command}
use susanin.Ros.Session.Calls.{received, ros_command-Complete}
use susanin.Ros.Session.Log.{SentOnly, SentOnly-refl, SentOnly-trans, SentOnly-ros_command}
use susanin.StateCleanup.Scan.{collect_ids, scan_words}
use susanin.StateCleanup.Matching.Effects.{SentOnly-collect_ids}
use susanin.StateCleanup.Disable.{
  auto_rules, disable_words, is_enabled_auto, enabled_auto_cb, verify_words, disable_rules,
  disable_found, disable_adaptive_mangle,
}

-- The enabled adaptive rules among replies.
abbrev pub enabled_in : List Sentence → ℕ
enabled_in [] = 0
enabled_in (s ∷ ss) = (if is_enabled_auto s then 1 else 0) + enabled_in ss

feed-enabled_in :
    (ss : List Sentence) (n : ℕ)
    → n + length ss < 2 ^ 32
    → feed enabled_auto_cb ss n ≡ n + enabled_in ss
unfolding enabled_auto_cb
feed-enabled_in [] n h = omega arith
feed-enabled_in (s ∷ ss) n h = ground (arith, feed-enabled_in ss n, feed-enabled_in ss (n + 1))

none_enabled : (ss : List Sentence) → enabled_in ss ≡ 0 → All (λ s. is_enabled_auto s ≡ false) ss
none_enabled [] h = tt
none_enabled (s ∷ ss) h = (ground arith, none_enabled ss (ground arith))

-- The last query of the fallback: complete replies, none of which shows an enabled adaptive rule.
pub record FailOpen (ss : List Sentence) : Type 0 where
  pub before : List Sentence
  pub last : Sentence
  pub left : List Sentence
  pub splits : ss ≡ before ++ (last ∷ left)
  pub quiet : All (λ s. is_trap s ≡ false) before
  pub ends : is_done last ≡ true
  pub all_off : All (λ s. is_enabled_auto s ≡ false) (before ++ (last ∷ []))

FailOpen-Complete :
    (ss : List Sentence) (n : ℕ) (left : List Sentence)
    → length ss < 2 ^ 32
    → Complete enabled_auto_cb ss 0 n left
    → n ≡ 0
    → FailOpen ss
FailOpen-Complete ss n left few c e = record {
  before = c.before;
  last = c.last;
  left = left;
  splits = c.splits;
  quiet = c.quiet;
  ends = c.ends;
  all_off = none_enabled (c.before ++ (c.last ∷ [])) (
      ground (
        arith,
        c.shown,
        feed-enabled_in (c.before ++ (c.last ∷ [])) 0,
        length-append c.before (c.last ∷ []),
        length-append c.before (c.last ∷ left),
        ap length c.splits,
      ));
}

module _ {R : Router} where
  disable_found_good :
      (ids : List Text) (s s' : Session R) (rc : ℤ)
      → length (received (disable_rules s ids) verify_words) < 2 ^ 32
      → disable_found (some ids) s ≡ (rc, s')
      → is_neg rc ≡ false
      → FailOpen (received (disable_rules s ids) verify_words)
  unfolding disable_found
  disable_found_good ids s s' rc few h n =
      let at = disable_rules s ids in
      let call = ros_command at verify_words (some enabled_auto_cb) 0 in
      let (left, c) =
        ros_command-Complete at verify_words enabled_auto_cb 0 call.0 call.1 call.2
          (λ st k. unfold enabled_auto_cb in refl) refl (ground arith) in
      FailOpen-Complete (received at verify_words) call.1 left few c (ground arith)

  -- When the scan of the adaptive rules found `ids` and the fallback reports success, the query behind
  -- the writes was answered completely and showed no adaptive rule that is not disabled, provided that
  -- its answer has fewer than 2 ^ 32 sentences.
  pub disable_adaptive_mangle_good :
      (s s1 s' : Session R) (ids : List Text) (rc : ℤ)
      → collect_ids s auto_rules ≡ (some ids, s1)
      → length (received (disable_rules s1 ids) verify_words) < 2 ^ 32
      → disable_adaptive_mangle s ≡ (rc, s')
      → is_neg rc ≡ false
      → FailOpen (received (disable_rules s1 ids) verify_words)
  unfolding disable_adaptive_mangle
  disable_adaptive_mangle_good s s1 s' ids rc found few h n =
      disable_found_good ids s1 s' rc few (rw found at h) n

  module _ (P : List Text → Type 0) (scans : P (scan_words auto_rules))
      (sets : (id : Text) → P (disable_words id)) (verifies : P verify_words) where
    SentOnly-disable_rules : (ids : List Text) (s : Session R) → SentOnly P s (disable_rules s ids)
    unfolding disable_rules
    SentOnly-disable_rules [] s = SentOnly-refl P s
    SentOnly-disable_rules (id ∷ ids) s =
        SentOnly-trans P (SentOnly-ros_command P s (disable_words id) none tt (sets id))
          (SentOnly-disable_rules ids _)

    SentOnly-disable_found :
        (found : Option (List Text)) (s : Session R) → SentOnly P s (disable_found found s).1
    unfolding disable_found
    SentOnly-disable_found none s = SentOnly-refl P s
    SentOnly-disable_found (some ids) s = SentOnly-trans P (SentOnly-disable_rules ids s) (
        SentOnly-ros_command P (disable_rules s ids) verify_words (some enabled_auto_cb) 0 verifies)

    pub SentOnly-disable_adaptive_mangle :
        (s : Session R) → SentOnly P s (disable_adaptive_mangle s).1
    unfolding disable_adaptive_mangle
    SentOnly-disable_adaptive_mangle s =
        SentOnly-trans P (SentOnly-collect_ids P auto_rules scans s) (SentOnly-disable_found _ _)
