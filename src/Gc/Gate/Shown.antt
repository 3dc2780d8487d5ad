-- ===== src/Gc/Gate/Shown.antt =====
-- About the answers behind the queries of the ownership gate of src/gc.c.
use susanin.Prelude.{
  ℕ, ◌+◌, ◌%◌, ◌^◌, ◌<◌, ◌≡◌, refl, ap, sym, ◌∙◌, Bool, true, false, ◌&&◌, List, [], ◌∷◌, ◌++◌,
  Option, none, some, arith, Bool-cases, Option-cases, inl, inr, some-injective, if◌then◌else◌,
}
use susanin.Prelude.Int.{pos, is_neg}
use susanin.Prelude.Text.{Text}
use susanin.Ros.Sentence.{Sentence, get_attr}
use susanin.Ros.Command.{Callback}
use susanin.Ros.Command.Success.{feed}
use susanin.Ros.Session.{Router, Session, ros_command}
use susanin.Ros.Session.Calls.{ros_command-Complete}
use susanin.Gc.Queries.{is_re, same_text, bump, ask}
use susanin.Gc.Queries.Answers.{Answer, answer_of}

-- A `!re` reply whose attribute has this value.
unfoldable pub is_named : Text → Text → Sentence → Bool
is_named attr wanted s = is_re s && same_text (get_attr s attr) wanted

-- How many replies satisfy a test, and the last of them.
unfoldable pub times : (Sentence → Bool) → List Sentence → ℕ
times test [] = 0
times test (s ∷ ss) = if test s then times test ss + 1 else times test ss

unfoldable pub last_of : (Sentence → Bool) → List Sentence → Option Sentence
last_of test [] = none
last_of test (s ∷ ss) = elim (last_of test ss) [
  | some r ↦ some r
  | none ↦ if test s then some s else none
]

-- A complete answer in which the number of replies that satisfy the test is 1, as a 32-bit counter counts,
-- and the last of them satisfies `P`.
pub record ShownOnce {R : Router} (s : Session R) (words : List Text) (test : Sentence → Bool)
    (P : Sentence → Type 0) : Type 0 where
  pub answer : Answer s words
  pub counted : times test (answer.before ++ (answer.last ∷ [])) % 2 ^ 32 ≡ 1
  pub reply : Sentence
  pub last_one : last_of test (answer.before ++ (answer.last ∷ [])) ≡ some reply
  pub good : P reply

-- A complete answer in which a 32-bit counter counts no `!re` reply.
pub record ShownNone {R : Router} (s : Session R) (words : List Text) : Type 0 where
  pub answer : Answer s words
  pub counted : times is_re (answer.before ++ (answer.last ∷ [])) % 2 ^ 32 ≡ 0

last_of-none :
    (test : Sentence → Bool) (ss : List Sentence) → last_of test ss ≡ none → times test ss ≡ 0
unfolding last_of times
last_of-none test [] h = refl
last_of-none test (s ∷ ss) h = elim (Option-cases (last_of test ss)) [
  | inr (r, e) ↦ cc (rw (e, last_of) at h)
  | inl e ↦ elim (Bool-cases (test s)) [
    | inl k ↦ cc (rw k at (rw (e, last_of) at h))
    | inr k ↦ rw (k, times) (last_of-none test ss e)
  ]
]

-- A callback that counts the replies of a test, and keeps of the last one what it shows.
module _ {C V : Type 0} (cb : Callback C) (test : Sentence → Bool) (count : C → ℕ) (view : C → V)
    (view_of : Sentence → V) (passes : (s : Sentence) (c : C) → test s ≡ false → (cb s c).1 ≡ c)
    (counts : (s : Sentence) (c : C) → test s ≡ true → count (cb s c).1 ≡ bump (count c))
    (keeps : (s : Sentence) (c : C) → test s ≡ true → view (cb s c).1 ≡ view_of s) where
  pub feed-times :
      (ss : List Sentence) (c : C)
      → count c < 2 ^ 32
      → count (feed cb ss c) ≡ (count c + times test ss) % 2 ^ 32
  unfolding times
  feed-times [] c l = omega arith
  feed-times (s ∷ ss) c l =
      let more = feed-times ss (cb s c).1 in
      elim (Bool-cases (test s)) [
        | inl e ↦
            let one = counts s c e in rw (e, times) (omega (arith, more (omega (arith, one)), one))
        | inr e ↦
            let same = ap count (passes s c e) in
            rw (e, times) (omega (arith, more (omega (arith, same)), same))
      ]

  feed-last_of :
      (ss : List Sentence) (c : C)
      → view (feed cb ss c) ≡ (elim (last_of test ss) [ none ↦ view c | some r ↦ view_of r ])
  unfolding last_of
  feed-last_of [] c = refl
  feed-last_of (s ∷ ss) c =
      let more = feed-last_of ss (cb s c).1 in
      elim (Option-cases (last_of test ss)) [
        | inr (r, e) ↦ rw (e, last_of) (rw e at more)
        | inl e ↦ elim (Bool-cases (test s)) [
          | inl k ↦ rw (e, last_of) (rw k ((rw e at more) ∙ keeps s c k))
          | inr k ↦ rw (e, last_of) (rw k ((rw e at more) ∙ ap view (passes s c k)))
        ]
      ]

  module _ {R : Router} (calm : (s : Sentence) (c : C) → (cb s c).0 ≡ pos 0) where
    pub ask-ShownOnce :
        (s : Session R) (words : List Text) (start g : C) (P : Sentence → Type 0)
        → (ask s words cb start).0 ≡ some g
        → count start ≡ 0
        → count g ≡ 1
        → ((r : Sentence) → view g ≡ view_of r → P r)
        → ShownOnce s words test P
    unfolding ask
    ask-ShownOnce s words start g P h z one p =
        let call = ros_command s words (some cb) start in
        elim (Bool-cases (is_neg call.0)) [
          | inl e ↦ cc (rw (e, ask) at h)
          | inr e ↦
              let (left, c) =
                ros_command-Complete s words cb start call.0 call.1 call.2 calm refl e in
              let replies = c.before ++ (c.last ∷ []) in
              let same : feed cb replies start ≡ g =
                sym c.shown ∙ some-injective (rw (e, ask) at h) in
              let total = feed-times replies start (omega (arith, z)) in
              let number = ap count same in
              let counted : times test replies % 2 ^ 32 ≡ 1 =
                omega (arith, total, number, z, one) in
              elim (Option-cases (last_of test replies)) [
                | inl k ↦ absurd (omega (arith, last_of-none test replies k, counted))
                | inr (r, k) ↦
                    let seen = feed-last_of replies start in
                    record {
                      answer = answer_of c;
                      counted = counted;
                      reply = r;
                      last_one = k;
                      good = p r (sym (ap view same) ∙ rw k at seen);
                    }
              ]
        ]
