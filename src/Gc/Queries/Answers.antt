-- ===== src/Gc/Queries/Answers.antt =====
-- About the answers behind the queries of src/gc.c.
use susanin.Prelude.{
  ℕ, zero, suc, ◌≡◌, refl, ap, sym, ◌∙◌, Bool, true, false, ◌&&◌, List, [], ◌∷◌, ◌++◌, some, All,
  arith, Bool-cases, Option-cases, inl, inr, some-injective,
}
use susanin.Prelude.Int.{pos, is_neg}
use susanin.Prelude.Text.{Text, codes, copy_to}
use susanin.Ros.Sentence.{Sentence, get_attr}
use susanin.Ros.Command.{Callback, is_trap, is_done}
use susanin.Ros.Command.Drain.{GoesOn}
use susanin.Ros.Command.Success.{feed, Complete}
use susanin.Ros.Session.{Router, Session, ros_command}
use susanin.Ros.Session.Calls.{received, ros_command-Complete, ros_command-Complete_done}
use susanin.Gc.Queries.{
  CountOnly, count_value, count_only_cb, id_find_cb, seen_count, ask, is_re, same_text,
  count_filtered_one, count_filtered_two_and, address_list_count, lazy_id_exists,
  state_contains_address,
}

-- Some replies, and behind them the `!done` that ends an answer; none of the first is a trap.
pub record Answer {R : Router} (s : Session R) (words : List Text) : Type 0 where
  pub before : List Sentence
  pub last : Sentence
  pub left : List Sentence
  pub splits : received s words ≡ before ++ (last ∷ left)
  pub quiet : All (λ st. is_trap st ≡ false) before
  pub ongoing : All GoesOn before
  pub ends : is_done last ≡ true

-- The router answered a query from `s` with the exact count `n`.
pub record Counted {R : Router} (s : Session R) (words : List Text) (n : ℕ) : Type 0 where
  pub answer : Answer s words
  pub value : count_value (get_attr answer.last (codes "ret")) ≡ some n

-- What a query of the address lists sends.
abbrev pub list_count_words : Text → List Text
list_count_words list =
    codes "/ip/firewall/address-list/print"
    ∷ codes "=count-only="
    ∷ copy_to 192 (codes "?list=" ++ list)
    ∷ []

abbrev pub member_count_words : Text → Text → List Text
member_count_words list address =
    codes "/ip/firewall/address-list/print"
    ∷ codes "=count-only="
    ∷ copy_to 192 (codes "?list=" ++ list)
    ∷ copy_to 192 (codes "?address=" ++ address)
    ∷ codes "?#&"
    ∷ []

count_only_cb_calm :
    (s : Sentence) (c : CountOnly) → is_done s ≡ false → (count_only_cb s c).0 ≡ pos 0
unfolding count_only_cb
count_only_cb_calm s c d = rw (d, count_only_cb) refl

count_only_cb_waits : (s : Sentence) (c : CountOnly) → is_done s ≡ false → (count_only_cb s c).1 ≡ c
unfolding count_only_cb
count_only_cb_waits s c d = rw (d, count_only_cb) refl

-- Only the last reply counts.
feed-count :
    (before : List Sentence) (last : Sentence) (c : CountOnly)
    → All GoesOn before
    → feed count_only_cb (before ++ (last ∷ [])) c ≡ (count_only_cb last c).1
feed-count [] last c v = refl
feed-count (s ∷ before) last c (v, vs) =
    ap (feed count_only_cb (before ++ (last ∷ []))) (count_only_cb_waits s c v.0)
    ∙ feed-count before last c vs

abbrev unseen : CountOnly
unseen = record { count = 0; seen = false }

count_only_cb_value :
    (last : Sentence) (n : ℕ)
    → is_done last ≡ true
    → seen_count (some (count_only_cb last unseen).1) ≡ some n
    → count_value (get_attr last (codes "ret")) ≡ some n
unfolding count_only_cb seen_count
count_only_cb_value last n d h = elim (Option-cases (count_value (get_attr last (codes "ret")))) [
  | inl e ↦ cc (rw e at (rw (d, count_only_cb) at h))
  | inr (m, e) ↦ e ∙ rw e at (rw (d, count_only_cb) at h)
]

-- What the query behind a removed rule sends.
abbrev pub lazy_words : Text → List Text
lazy_words comment =
    codes "/ip/firewall/mangle/print"
    ∷ codes "=.proplist=.id,comment"
    ∷ copy_to 320 (codes "?comment=" ++ comment)
    ∷ []

unfoldable pub shows_id : Text → Sentence → Bool
shows_id id s = is_re s && same_text (get_attr s (codes ".id")) id

id_find_cb_calm : (id : Text) (s : Sentence) (found : Bool) → (id_find_cb id s found).0 ≡ pos 0
unfolding id_find_cb
id_find_cb_calm id s found = refl

-- A callback that remembers that some reply satisfied a test.
module _ (cb : Callback Bool) (test : Sentence → Bool)
    (finds : (s : Sentence) (found : Bool) → test s ≡ true → (cb s found).1 ≡ true)
    (passes : (s : Sentence) (found : Bool) → test s ≡ false → (cb s found).1 ≡ found) where
  -- What is found is never forgotten.
  feed-found : (ss : List Sentence) → feed cb ss true ≡ true
  feed-found [] = refl
  feed-found (s ∷ ss) = elim (Bool-cases (test s)) [
    | inl e ↦ ap (feed cb ss) (finds s true e) ∙ feed-found ss
    | inr e ↦ ap (feed cb ss) (passes s true e) ∙ feed-found ss
  ]

  feed-unseen : (ss : List Sentence) → feed cb ss false ≡ false → All (λ s. test s ≡ false) ss
  feed-unseen [] h = tt
  feed-unseen (s ∷ ss) h = elim (Bool-cases (test s)) [
    | inl e ↦ cc (sym h ∙ ap (feed cb ss) (finds s false e) ∙ feed-found ss)
    | inr e ↦ (e, feed-unseen ss (sym (ap (feed cb ss) (passes s false e)) ∙ h))
  ]

module _ {R : Router} where
  abbrev pub answer_of :
      {C : Type 0} {s : Session R} {words : List Text} {cb : Callback C} {old ctx : C}
      {left : List Sentence}
      → Complete cb (received s words) old ctx left
      → Answer s words
  answer_of {left = left} c = record {
    before = c.before;
    last = c.last;
    left = left;
    splits = c.splits;
    quiet = c.quiet;
    ongoing = c.ongoing;
    ends = c.ends;
  }

  ask-Counted :
      (s : Session R) (words : List Text) (n : ℕ)
      → seen_count (ask s words count_only_cb unseen).0 ≡ some n
      → Counted s words n
  unfolding ask seen_count
  ask-Counted s words n h =
      let call = ros_command s words (some count_only_cb) unseen in
      elim (Bool-cases (is_neg call.0)) [
        | inl e ↦ cc (rw (e, ask) at h)
        | inr e ↦
            let (left, c) =
              ros_command-Complete_done s words count_only_cb unseen call.0 call.1 call.2
                count_only_cb_calm refl e in
            let last_counts = c.shown ∙ feed-count c.before c.last unseen c.ongoing in
            record {
              answer = answer_of c;
              value = count_only_cb_value c.last n c.ends (rw last_counts at (rw (e, ask) at h));
            }
      ]

  pub address_list_count-Counted :
      (s : Session R) (list : Text) (n : ℕ)
      → (address_list_count s list).0 ≡ some n
      → Counted s (list_count_words list) n
  unfolding address_list_count count_filtered_one
  address_list_count-Counted s list n h = ask-Counted s (list_count_words list) n h

  pub state_contains_address-Counted :
      (s : Session R) (list address : Text)
      → (state_contains_address s list address).0 ≡ some false
      → Counted s (member_count_words list address) 0
  unfolding state_contains_address count_filtered_two_and
  state_contains_address-Counted s list address h =
      let n =
        (count_filtered_two_and s (codes "/ip/firewall/address-list/print")
          (copy_to 192 (codes "?list=" ++ list)) (copy_to 192 (codes "?address=" ++ address))).0 in
      elim (Option-cases n) [
        | inl e ↦ cc (rw (e, state_contains_address) at h)
        | inr (zero, e) ↦ ask-Counted s (member_count_words list address) 0 e
        | inr (suc k, e) ↦ ground (arith, rw (e, state_contains_address) at h)
      ]

  -- Such a query that finds nothing was answered in full, and no reply satisfies the test.
  module _ (cb : Callback Bool) (test : Sentence → Bool)
      (finds : (s : Sentence) (found : Bool) → test s ≡ true → (cb s found).1 ≡ true)
      (passes : (s : Sentence) (found : Bool) → test s ≡ false → (cb s found).1 ≡ found)
      (calm : (s : Sentence) (found : Bool) → (cb s found).0 ≡ pos 0) where
    pub ask-unseen :
        (s : Session R) (words : List Text)
        → (ask s words cb false).0 ≡ some false
        → (a : Answer s words) × All (λ st. test st ≡ false) (a.before ++ (a.last ∷ []))
    unfolding ask
    ask-unseen s words h =
        let call = ros_command s words (some cb) false in
        elim (Bool-cases (is_neg call.0)) [
          | inl e ↦ cc (rw (e, ask) at h)
          | inr e ↦
              let (left, c) =
                ros_command-Complete s words cb false call.0 call.1 call.2 calm refl e in
              let unseen = some-injective (rw (e, ask) at h) in
              (
                answer_of c,
                feed-unseen cb test finds passes (c.before ++ (c.last ∷ [])) (sym c.shown ∙ unseen),
              )
        ]

  -- A query of the rules that does not find an id was answered in full, and no reply shows the id.
  pub lazy_id_exists-Answer :
      (s : Session R) (comment id : Text)
      → (lazy_id_exists s comment id).0 ≡ some false
      → (a : Answer s (lazy_words comment)) × All
          (λ st. shows_id id st ≡ false)
          (a.before ++ (a.last ∷ []))
  unfolding lazy_id_exists id_find_cb shows_id
  lazy_id_exists-Answer s comment id h =
      ask-unseen (id_find_cb id) (shows_id id) (λ st found e. rw (e, id_find_cb) refl)
        (λ st found e. rw (e, id_find_cb) refl) (id_find_cb_calm id) s (lazy_words comment) h
