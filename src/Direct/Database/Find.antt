-- ===== src/Direct/Database/Find.antt =====
-- About `db_find` of src/direct.c and the loop that closes the gap of a removed entry.
use susanin.Prelude.{
  ℕ, suc, ◌≡◌, refl, ap, true, [], ◌∷◌, ◌++◌, none, some, inl, inr, arith, Bool-cases, Option-cases,
}
use susanin.Prelude.Text.{Text, str_eq_iff}
use susanin.Direct.Value.{DirectKind, ip, domain}
use susanin.Direct.Database.{Entry, Db, db_find, is_entry, kinds_equal, remove_at}

kinds_equal_lem : (a b : DirectKind) → kinds_equal a b ≡ true → a ≡ b
unfolding kinds_equal
kinds_equal_lem ip ip h = refl
kinds_equal_lem ip domain h = cc
kinds_equal_lem domain ip h = cc
kinds_equal_lem domain domain h = refl

is_entry_lem :
    (kind : DirectKind) (value : Text) (e : Entry)
    → is_entry kind value e ≡ true
    → e ≡ record { kind = kind; value = value }
unfolding is_entry
is_entry_lem kind value e h = ground (arith, kinds_equal_lem e.kind kind, str_eq_iff e.value value)

-- `db'` is `db` without the first entry of a kind and value.
pub record WithoutFirst (db db' : Db) (kind : DirectKind) (value : Text) : Type 0 where
  pub before : Db
  pub after : Db
  pub splits : db ≡ before ++ (record { kind = kind; value = value } ∷ after)
  pub absent : db_find before kind value ≡ none
  pub left : db' ≡ before ++ after

pub db_find-WithoutFirst :
    (db : Db) (kind : DirectKind) (value : Text) (i : ℕ)
    → db_find db kind value ≡ some i
    → WithoutFirst db (remove_at i db) kind value
unfolding db_find remove_at
db_find-WithoutFirst [] kind value i h = cc
db_find-WithoutFirst (e ∷ db) kind value i h = elim (Bool-cases (is_entry kind value e)) [
  | inl here ↦
      let zero_lem : i ≡ 0 = ground (arith, rw here at h) in
      rw zero_lem (record {
        before = [];
        after = db;
        splits = ap (λ x. x ∷ db) (is_entry_lem kind value e here);
        absent = refl;
        left = refl;
      })
  | inr later ↦ elim (Option-cases (db_find db kind value)) [
    | inl gone ↦ cc (rw gone at (rw later at h))
    | inr (j, found) ↦
        let w = db_find-WithoutFirst db kind value j found in
        let next : i ≡ suc j = ground (arith, rw found at (rw later at h)) in
        rw next (record {
          before = e ∷ w.before;
          after = w.after;
          splits = ap (λ l. e ∷ l) w.splits;
          absent = rw later (rw w.absent refl);
          left = ap (λ l. e ∷ l) w.left;
        })
  ]
]
