-- ===== src/Gc/Lazy/Scan.antt =====
-- About `collect_lazy_kind` of src/gc.c.
use susanin.Prelude.{ℕ, ◌≤◌, ◌≡◌, refl, ap, false, [], ◌∷◌, ◌++◌, Option, none, some}
use susanin.Prelude.{Bool-cases, inl, inr, ltb, length, length-append, if◌then◌else◌, arith}
use susanin.Prelude.Text.{Text, codes, copy_to, str_eq}
use susanin.Ros.Sentence.{Sentence, get_attr}
use susanin.Ros.Session.{Router, Session}
use susanin.Ros.Session.Log.{Issued, Issued-refl, Issued-trans, is_change, ends_with}
use susanin.Gc.Names.{Kind, max_lazy, mark_name}
use susanin.Gc.Commands.{IsGcCommand}
use susanin.Gc.Queries.{text_of, count_filtered_one}
use susanin.Gc.Queries.Prints.{Issued-ask, Issued-count_filtered_one, ask-keeps}
use susanin.Gc.Lazy.{LazyCollect, lazy_candidate, lazy_collect_cb, scan_lazy, collect_lazy_kind}

-- `out->count` never passes the end of `out->items`.
abbrev pub Fits : LazyCollect → Type 0
Fits c = length c.items ≤ max_lazy

lazy_collect_cb-Fits :
    (kind : Kind) (s : Sentence) (c : LazyCollect) → Fits c → Fits (lazy_collect_cb kind s c).1
unfolding lazy_collect_cb
lazy_collect_cb-Fits kind s c h = ground (
  arith,
  length-append c.items (lazy_candidate kind (text_of (get_attr s (codes "comment"))) s ∷ []),
)

whole :
    (c : LazyCollect) (got : Option LazyCollect)
    → ((c' : LazyCollect) → got ≡ some c' → Fits c')
    → (elim got [ none ↦ none | some c' ↦ if c'.truncated then none else some c' ]) ≡ some c
    → Fits c × (c.truncated ≡ false)
whole c none fits h = cc
whole c (some c') fits h = elim (Bool-cases c'.truncated) [
  | inl t ↦ cc (rw t at h)
  | inr t ↦ (fits c (ground arith), ground arith)
]

module _ {R : Router} where
  Issued-scan_lazy :
      (kind : Kind) (query : Text) (total : Option ℕ) (s : Session R)
      → Issued IsGcCommand 0 s (scan_lazy kind query total s).1
  unfolding scan_lazy is_change ends_with codes str_eq
  Issued-scan_lazy kind query none s = Issued-refl IsGcCommand 0 s
  Issued-scan_lazy kind query (some total) s = elim (Bool-cases (ltb max_lazy total)) [
    | inl e ↦ rw (e, scan_lazy) (Issued-refl IsGcCommand 0 s)
    | inr e ↦ rw (e, scan_lazy) (Issued-ask s _ _ _ refl)
  ]

  pub Issued-collect_lazy_kind :
      (kind : Kind) (s : Session R) → Issued IsGcCommand 0 s (collect_lazy_kind kind s).1
  unfolding collect_lazy_kind ends_with codes str_eq
  Issued-collect_lazy_kind kind s =
      let query = copy_to 128 (codes "?new-connection-mark=" ++ mark_name kind) in
      let (total, s1) = count_filtered_one s (codes "/ip/firewall/mangle/print") query in
      Issued-trans IsGcCommand 0 0 0 (omega arith)
        (Issued-count_filtered_one s (codes "/ip/firewall/mangle/print") query refl)
        (Issued-scan_lazy kind query total s1)

  scan_lazy-Fits :
      (kind : Kind) (query : Text) (total : Option ℕ) (s : Session R) (c : LazyCollect)
      → (scan_lazy kind query total s).0 ≡ some c
      → Fits c × (c.truncated ≡ false)
  unfolding scan_lazy
  scan_lazy-Fits kind query none s c h = cc
  scan_lazy-Fits kind query (some total) s c h = elim (Bool-cases (ltb max_lazy total)) [
    | inl e ↦ cc (rw (e, scan_lazy) at h)
    | inr e ↦
        whole c _
          (λ got g.
            ask-keeps Fits s _ (lazy_collect_cb kind) _ got (lazy_collect_cb-Fits kind)
              (omega arith) g)
          (rw (e, scan_lazy) at h)
  ]

  -- A scan that succeeds was not cut short, and its candidates fit the array of 128.
  pub collect_lazy_kind-Fits :
      (kind : Kind) (s s' : Session R) (c : LazyCollect)
      → collect_lazy_kind kind s ≡ (some c, s')
      → Fits c × (c.truncated ≡ false)
  unfolding collect_lazy_kind
  collect_lazy_kind-Fits kind s s' c h =
      let query = copy_to 128 (codes "?new-connection-mark=" ++ mark_name kind) in
      let (total, s1) = count_filtered_one s (codes "/ip/firewall/mangle/print") query in
      scan_lazy-Fits kind query total s1 c (ap (λ p. p.0) h)
