-- ===== src/Gc/Marks/Scan.antt =====
-- About `collect_mark_kind` of src/gc.c.
use susanin.Prelude.{
  ℕ, zero, suc, ◌==◌, ◌≤◌, ◌≡◌, refl, ap, false, [], ◌∷◌, ◌++◌, Option, none, some,
}
use susanin.Prelude.{
  Bool-cases, Option-cases, inl, inr, ltb, length, length-append, if◌then◌else◌, arith,
}
use susanin.Prelude.Text.{Text, codes, copy_to, str_eq}
use susanin.Ros.Sentence.{Sentence}
use susanin.Ros.Session.{Router, Session, sleep}
use susanin.Ros.Session.Log.{Issued, Issued-refl, Issued-trans, Issued-sleep, is_change, ends_with}
use susanin.Gc.Names.{Kind, mark_scan_retries, max_marks, mark_name}
use susanin.Gc.Commands.{IsGcCommand}
use susanin.Gc.Queries.{count_filtered_one}
use susanin.Gc.Queries.Prints.{Issued-ask, Issued-count_filtered_one, ask-keeps}
use susanin.Gc.Marks.{
  collect_mark_loop, collect_mark_kind, MarkCollect, mark_candidate, mark_collect_cb, scan_marks,
  collect_mark_kind_once,
}

-- `out->count` never passes the end of `out->items`.
abbrev pub Fits : MarkCollect → Type 0
Fits c = length c.items ≤ max_marks

mark_collect_cb-Fits :
    (kind : Kind) (s : Sentence) (c : MarkCollect) → Fits c → Fits (mark_collect_cb kind s c).1
unfolding mark_collect_cb
mark_collect_cb-Fits kind s c h = ground (arith, length-append c.items (mark_candidate kind s ∷ []))

whole :
    (c : MarkCollect) (got : Option MarkCollect)
    → ((c' : MarkCollect) → got ≡ some c' → Fits c')
    → (elim got [ none ↦ none | some c' ↦ if c'.truncated then none else some c' ]) ≡ some c
    → Fits c × (c.truncated ≡ false)
whole c none fits h = cc
whole c (some c') fits h = elim (Bool-cases c'.truncated) [
  | inl t ↦ cc (rw t at h)
  | inr t ↦ (fits c (ground arith), ground arith)
]

module _ {R : Router} where
  Issued-scan_marks :
      (kind : Kind) (query : Text) (total : Option ℕ) (s : Session R)
      → Issued IsGcCommand 0 s (scan_marks kind query total s).1
  unfolding scan_marks is_change ends_with codes str_eq
  Issued-scan_marks kind query none s = Issued-refl IsGcCommand 0 s
  Issued-scan_marks kind query (some total) s = elim (Bool-cases (ltb max_marks total)) [
    | inl e ↦ rw (e, scan_marks) (Issued-refl IsGcCommand 0 s)
    | inr e ↦ rw (e, scan_marks) (Issued-ask s _ _ _ refl)
  ]

  Issued-collect_mark_kind_once :
      (kind : Kind) (s : Session R) → Issued IsGcCommand 0 s (collect_mark_kind_once kind s).1
  unfolding collect_mark_kind_once ends_with codes str_eq
  Issued-collect_mark_kind_once kind s =
      let query = copy_to 128 (codes "?connection-mark=" ++ mark_name kind) in
      let (total, s1) = count_filtered_one s (codes "/ip/firewall/connection/print") query in
      Issued-trans IsGcCommand 0 0 0 (omega arith)
        (Issued-count_filtered_one s (codes "/ip/firewall/connection/print") query refl)
        (Issued-scan_marks kind query total s1)

  scan_marks-Fits :
      (kind : Kind) (query : Text) (total : Option ℕ) (s : Session R) (c : MarkCollect)
      → (scan_marks kind query total s).0 ≡ some c
      → Fits c × (c.truncated ≡ false)
  unfolding scan_marks
  scan_marks-Fits kind query none s c h = cc
  scan_marks-Fits kind query (some total) s c h = elim (Bool-cases (ltb max_marks total)) [
    | inl e ↦ cc (rw (e, scan_marks) at h)
    | inr e ↦
        whole c _
          (λ got g.
            ask-keeps Fits s _ (mark_collect_cb kind) _ got (mark_collect_cb-Fits kind)
              (omega arith) g)
          (rw (e, scan_marks) at h)
  ]

  collect_mark_kind_once-Fits :
      (kind : Kind) (s s' : Session R) (c : MarkCollect)
      → collect_mark_kind_once kind s ≡ (some c, s')
      → Fits c × (c.truncated ≡ false)
  unfolding collect_mark_kind_once
  collect_mark_kind_once-Fits kind s s' c h =
      let query = copy_to 128 (codes "?connection-mark=" ++ mark_name kind) in
      let (total, s1) = count_filtered_one s (codes "/ip/firewall/connection/print") query in
      scan_marks-Fits kind query total s1 c (ap (λ p. p.0) h)

  Issued-collect_mark_loop :
      (left : ℕ) (kind : Kind) (s : Session R)
      → Issued IsGcCommand 0 s (collect_mark_loop left kind s).1
  unfolding collect_mark_loop
  Issued-collect_mark_loop zero kind s = Issued-refl IsGcCommand 0 s
  Issued-collect_mark_loop (suc left) kind s =
      let s1 = (collect_mark_kind_once kind s).1 in
      let once = Issued-collect_mark_kind_once kind s in
      elim (Option-cases (collect_mark_kind_once kind s).0) [
        | inr (c, e) ↦ rw (e, collect_mark_loop) once
        | inl e ↦ elim (Bool-cases (left == 0)) [
          | inl z ↦ rw (e, collect_mark_loop) (rw z once)
          | inr z ↦
              rw (e, collect_mark_loop)
                (rw z (
                  Issued-trans IsGcCommand 0 0 0 (omega arith) once (
                    Issued-trans IsGcCommand 0 0 0 (omega arith) (Issued-sleep IsGcCommand 0 s1)
                      (Issued-collect_mark_loop left kind (sleep s1)))))
        ]
      ]

  pub Issued-collect_mark_kind :
      (kind : Kind) (s : Session R) → Issued IsGcCommand 0 s (collect_mark_kind kind s).1
  unfolding collect_mark_kind
  Issued-collect_mark_kind kind s = Issued-collect_mark_loop mark_scan_retries kind s

  collect_mark_loop-Fits :
      (left : ℕ) (kind : Kind) (s : Session R) (c : MarkCollect)
      → (collect_mark_loop left kind s).0 ≡ some c
      → Fits c × (c.truncated ≡ false)
  unfolding collect_mark_loop
  collect_mark_loop-Fits zero kind s c h = cc
  collect_mark_loop-Fits (suc left) kind s c h =
      let s1 = (collect_mark_kind_once kind s).1 in
      elim (Option-cases (collect_mark_kind_once kind s).0) [
        | inr (c', e) ↦
            collect_mark_kind_once-Fits kind s s1 c (ground (arith, rw (e, collect_mark_loop) at h))
        | inl e ↦ elim (Bool-cases (left == 0)) [
          | inl z ↦ cc (rw z at (rw (e, collect_mark_loop) at h))
          | inr z ↦
              collect_mark_loop-Fits left kind (sleep s1) c
                (rw z at (rw (e, collect_mark_loop) at h))
        ]
      ]

  -- A scan that succeeds was not cut short, and its candidates fit the array of 128.
  pub collect_mark_kind-Fits :
      (kind : Kind) (s s' : Session R) (c : MarkCollect)
      → collect_mark_kind kind s ≡ (some c, s')
      → Fits c × (c.truncated ≡ false)
  unfolding collect_mark_kind
  collect_mark_kind-Fits kind s s' c h =
      collect_mark_loop-Fits mark_scan_retries kind s c (ap (λ p. p.0) h)
