-- ===== src/Ros/Sentence/Attr.antt =====
-- About `ros_get_attr` of src/routeros_api.c.
use susanin.Prelude.{◌≡◌, refl, List, [], ◌∷◌, ◌++◌, none, some, arith, ◌↔◌}
use susanin.Prelude.{Option-cases, inl, inr, All}
use susanin.Prelude.Text.{Text, after_prefix, after_prefix_iff}
use susanin.Ros.Sentence.{attr_of, find_attr, get_attr}

-- The word `=key=value`.
abbrev pub attr_word : Text → Text → Text
attr_word key value = b'=' ∷ (key ++ (b'=' ∷ value))

-- A word gives a value exactly when it is `=key=` with that value behind it.
pub attr_of_iff : (w key value : Text) → (attr_of w key ≡ some value) ↔ (w ≡ attr_word key value)
unfolding attr_of
attr_of_iff [] key value = ground arith
attr_of_iff (c ∷ cs) key value = elim (Option-cases (after_prefix key cs)) [
  | inl e ↦ ground (arith, after_prefix_iff key cs (b'=' ∷ value))
  | inr ([], e) ↦ ground (arith, after_prefix_iff key cs (b'=' ∷ value))
  | inr (d ∷ r, e) ↦
      ground (arith, after_prefix_iff key cs (b'=' ∷ value), after_prefix_iff key cs (d ∷ r))
]

find_attr-first :
    (before : List Text) (after : List Text) (key value : Text)
    → All (λ w. attr_of w key ≡ none) before
    → find_attr (before ++ (attr_word key value ∷ after)) key ≡ some value
unfolding find_attr
find_attr-first [] after key value h =
    rw ((attr_of_iff (attr_word key value) key value).1 refl, find_attr)
find_attr-first (w ∷ before) after key value (hw, h) =
    rw (hw, find_attr) (find_attr-first before after key value h)

-- The first word that carries the key wins, and the reply word is never read as an attribute.
pub get_attr-first :
    (reply : Text) (before after : List Text) (key value : Text)
    → All (λ w. attr_of w key ≡ none) before
    → get_attr (reply ∷ (before ++ (attr_word key value ∷ after))) key ≡ some value
unfolding get_attr
get_attr-first reply before after key value h = find_attr-first before after key value h
