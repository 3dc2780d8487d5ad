-- ===== src/Direct/Value/Domain.antt =====
-- About `normalize_domain` of src/direct.c.
use susanin.Prelude.{
  ℕ, ◌≤◌, ◌<◌, ◌≡◌, refl, ◌∙◌, ap, Bool, true, false, not, ◌&&◌, ◌||◌, [], ◌∷◌, ◌++◌, none, some,
  arith, length, leb, ◌==◌, take-all, All, Bool-cases, inl, inr, if◌then◌else◌,
}
use susanin.Prelude.Text.{Text, copy_to}
use susanin.Prelude.Decimal.{is_empty}
use susanin.Direct.Value.{
  is_label_char, to_lower, lower, valid_domain_label, valid_labels, strip_dots, has_dot,
  normalize_domain,
}
use susanin.Direct.Value.Plain.{IsPlain, All-of_all, All-front}
use susanin.Prelude.{All-map}

to_lower_idem : (c : ℕ) → to_lower (to_lower c) ≡ to_lower c
unfolding to_lower
to_lower_idem c = ground arith

lower_idem : (s : Text) → lower (lower s) ≡ lower s
unfolding lower
lower_idem [] = refl
lower_idem (c ∷ s) = rw (lower_idem s) (rw (to_lower_idem c) refl)

length-lower : (s : Text) → length (lower s) ≡ length s
unfolding lower
length-lower [] = refl
length-lower (c ∷ s) = omega (arith, length-lower s)

to_lower-dot : (c : ℕ) → (to_lower c == b'.') ≡ (c == b'.')
unfolding to_lower
to_lower-dot c = ground arith

has_dot-lower : (s : Text) → has_dot (lower s) ≡ has_dot s
unfolding lower
has_dot-lower [] = refl
has_dot-lower (c ∷ s) = rw (has_dot-lower s) (rw (to_lower-dot c) refl)

is_empty-lower : (s : Text) → is_empty (lower s) ≡ is_empty s
unfolding lower
is_empty-lower [] = refl
is_empty-lower (c ∷ s) = refl

strip_dots_idem : (s : Text) → strip_dots (strip_dots s) ≡ strip_dots s
unfolding strip_dots
strip_dots_idem [] = refl
strip_dots_idem (c ∷ s) = elim (Bool-cases (is_empty (strip_dots s) && c == b'.')) [
  | inl e ↦ rw e refl
  | inr e ↦ rw (e, strip_dots) (rw (strip_dots_idem s) (rw e refl))
]

strip_dots-lower : (s : Text) → strip_dots (lower s) ≡ lower (strip_dots s)
unfolding strip_dots lower
strip_dots-lower [] = refl
strip_dots-lower (c ∷ s) = rw (strip_dots-lower s) (
    rw (is_empty-lower (strip_dots s)) (
      rw (to_lower-dot c) (elim (Bool-cases (is_empty (strip_dots s) && c == b'.')) [
        | inl e ↦ rw e refl
        | inr e ↦ rw e refl
      ])))

length-strip_dots : (s : Text) → length (strip_dots s) ≤ length s
unfolding strip_dots
length-strip_dots [] = omega arith
length-strip_dots (c ∷ s) = ground (arith, length-strip_dots s)

-- What a normalised name is.
pub record IsName (value : Text) : Type 0 where
  pub given : is_empty value ≡ false
  pub short : length value < 254
  pub stripped : strip_dots value ≡ value
  pub dotted : has_dot value ≡ true
  pub lowered : lower value ≡ value
  pub labelled : valid_labels [] value ≡ true

-- The tests behind an accepted name.
record Accepted (s : Text) : Type 0 where
  fits : length s < 254
  some_name : is_empty (strip_dots s) ≡ false
  some_dot : has_dot (strip_dots s) ≡ true
  all_valid : valid_labels [] (lower (strip_dots s)) ≡ true

copy_short : (s : Text) → length s < 254 → copy_to 256 s ≡ s
copy_short s h = take-all 255 s (omega arith)

short_name : (s : Text) → length s < 254 → length (lower (strip_dots s)) < 254
short_name s h = omega (arith, length-lower (strip_dots s), length-strip_dots s)

-- The result of the tests, once the copies are known to be whole.
decide :
    (s name low value : Text) (valid : Bool)
    → (if is_empty s || leb 254 (length s)
        then none
        else if is_empty name || not (has_dot name)
        then none
        else if valid
        then some low
        else none)
      ≡ some value
    → (length s < 254)
      × (is_empty name ≡ false)
      × (has_dot name ≡ true)
      × (valid ≡ true)
      × (low ≡ value)
decide s name low value valid h = ground arith

-- The same for `normalize_domain`, on the copies that it makes.
tested :
    (s value : Text) (copy low : Text)
    → copy_to 256 s ≡ copy
    → copy_to 256 (lower (strip_dots copy)) ≡ low
    → normalize_domain s ≡ some value
    → (length s < 254)
      × (is_empty (strip_dots copy) ≡ false)
      × (has_dot (strip_dots copy) ≡ true)
      × (valid_labels [] (lower (strip_dots copy)) ≡ true)
      × (low ≡ value)
unfolding normalize_domain
tested s value copy low e f h =
    decide s (strip_dots copy) low value (valid_labels [] (lower (strip_dots copy)))
      (rw f at (rw e at h))

normalize_domain-Accepted :
    (s value : Text) → normalize_domain s ≡ some value → Accepted s × (value ≡ lower (strip_dots s))
normalize_domain-Accepted s value h =
    let fits = (tested s value (copy_to 256 s) _ refl refl h).0 in
    let (_, given, dots, valid, low) =
      tested s value s (lower (strip_dots s)) (copy_short s fits)
        (copy_short (lower (strip_dots s)) (short_name s fits)) h in
    (record { fits = fits; some_name = given; some_dot = dots; all_valid = valid }, cc)

pub normalize_domain-IsName : (s value : Text) → normalize_domain s ≡ some value → IsName value
normalize_domain-IsName s value h =
    let (a, e) = normalize_domain-Accepted s value h in
    let name = strip_dots s in
    rw e (record {
      given = is_empty-lower name ∙ a.some_name;
      short = short_name s a.fits;
      stripped = strip_dots-lower name ∙ ap lower (strip_dots_idem s);
      dotted = has_dot-lower name ∙ a.some_dot;
      lowered = lower_idem name;
      labelled = a.all_valid;
    })

pub normalize_domain_normal : (v : Text) → IsName v → normalize_domain v ≡ some v
unfolding normalize_domain
normalize_domain_normal v n = rw (copy_short v n.short) (
    rw n.stripped (
      rw n.lowered (
        rw (copy_short v n.short)
          (rw n.labelled (rw n.dotted (rw n.given (ground (arith, n.short))))))))

valid_label-IsPlain : (label : Text) → valid_domain_label label ≡ true → All IsPlain label
unfolding valid_domain_label
valid_label-IsPlain label h =
    All-map (λ c. is_label_char c ≡ true) IsPlain (λ c k. ground arith) label
      (All-of_all is_label_char label (ground arith))

valid_labels-IsPlain :
    (label s : Text) → valid_labels label s ≡ true → All IsPlain label × All IsPlain s
unfolding valid_labels
valid_labels-IsPlain [] [] h = (tt, tt)
valid_labels-IsPlain (c ∷ label) [] h = (valid_label-IsPlain (c ∷ label) h, tt)
valid_labels-IsPlain label (c ∷ s) h = elim (Bool-cases (c == b'.')) [
  | inl e ↦
      let g = rw (e, valid_labels) at h in
      (
        valid_label-IsPlain label (ground (arith, g)),
        (ground arith, (valid_labels-IsPlain [] s (ground (arith, g))).1),
      )
  | inr e ↦
      let (front, back) = valid_labels-IsPlain (label ++ (c ∷ [])) s (rw (e, valid_labels) at h) in
      (All-front IsPlain label (c ∷ []) front, (last label c front, back))
]
  where
    last : (label : Text) (c : ℕ) → All IsPlain (label ++ (c ∷ [])) → IsPlain c
    last [] c h = h.0
    last (d ∷ label) c h = last label c h.1

pub IsName-IsPlain : (v : Text) → IsName v → All IsPlain v
IsName-IsPlain v n = (valid_labels-IsPlain [] v n.labelled).1
