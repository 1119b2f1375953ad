-- ===== src/Api/OwnerAccounts/Found.antt =====
-- What searches find among accounts with distinct identifiers, before and after an update.
use dnd_notes.Common.{
  String, Bool, true, false, ◌==◌, ◌≡◌, ◌≢◌, refl, sym, ap, ◌∙◌, subst, Option, none, some, List,
  [], ◌∷◌, ◌++◌, map, find, update_where, map_some, All, Distinct, eq_iff, eq_refl, if◌then◌else◌,
  inl, inr, Bool-cases, none-ne, some_unique,
}
use dnd_notes.Api.OwnerAccounts.{OwnerAccountRow, Accounts}

abbrev pub ids : Accounts → List String
ids s = map (λ (r : OwnerAccountRow). r.id) s.owner_accounts

abbrev pub by_id : String → List OwnerAccountRow → Option OwnerAccountRow
by_id id rows = find (λ (r : OwnerAccountRow). r.id == id) rows

differs :
    (rows : List OwnerAccountRow) (x y : OwnerAccountRow) (p : OwnerAccountRow → Bool)
    → All (λ i. i ≢ x.id) (map (λ (r : OwnerAccountRow). r.id) rows)
    → find p rows ≡ some y
    → (x.id == y.id) ≡ false
differs [] x y p apart e = absurd (none-ne y e)
differs (r ∷ rows) x y p (apart, rest) e = elim (Bool-cases (p r)) [
  | inl t ↦
      let same : r ≡ y = some_unique (rw t at e) in
      by_test
        (λ hit. apart (ap (λ (z : OwnerAccountRow). z.id) same ∙ sym ((eq_iff x.id y.id).0 hit)))
  | inr f ↦ differs rows x y p rest (rw f at e)
]
  where
    by_test : ((x.id == y.id) ≡ true → ⊥) → (x.id == y.id) ≡ false
    by_test h = elim (Bool-cases (x.id == y.id)) [ inl t ↦ absurd (h t) | inr f ↦ f ]

-- What a search finds is what a search for its identifier finds, where identifiers are distinct.
pub by_id-found :
    (p : OwnerAccountRow → Bool) (rows : List OwnerAccountRow) (row : OwnerAccountRow)
    → Distinct (map (λ (r : OwnerAccountRow). r.id) rows)
    → find p rows ≡ some row
    → by_id row.id rows ≡ some row
by_id-found p [] row distinct e = absurd (none-ne row e)
by_id-found p (r ∷ rows) row (apart, distinct) e = elim (Bool-cases (p r)) [
  | inl t ↦
      let same : r ≡ row = some_unique (rw t at e) in
      subst (λ (z : OwnerAccountRow). by_id z.id (r ∷ rows) ≡ some z) same (rw (eq_refl r.id) refl)
  | inr f ↦
      rw (differs rows r row p apart (rw f at e)) (by_id-found p rows row distinct (rw f at e))
]

-- An update that makes all it touches fit, where nothing fitted before.
pub find-fitted :
    (p q : OwnerAccountRow → Bool) (f : OwnerAccountRow → OwnerAccountRow)
    (rows : List OwnerAccountRow)
    → find p rows ≡ none
    → ((r : OwnerAccountRow) → p (f r) ≡ true)
    → find p (update_where q f rows) ≡ map_some f (find q rows)
find-fitted p q f [] e fits = refl
find-fitted p q f (r ∷ rows) e fits = elim (Bool-cases (p r)) [
  | inl t ↦ absurd (none-ne r (sym (rw t at e)))
  | inr miss ↦ elim (Bool-cases (q r)) [
    | inl t ↦ rw (t, fits r) refl
    | inr f' ↦ rw (f', miss) (find-fitted p q f rows (rw miss at e) fits)
  ]
]

-- The same, where the row that is touched fitted before.
pub find-refitted :
    (p : OwnerAccountRow → Bool) (f : OwnerAccountRow → OwnerAccountRow)
    (rows : List OwnerAccountRow) (row : OwnerAccountRow)
    → Distinct (map (λ (r : OwnerAccountRow). r.id) rows)
    → find p rows ≡ some row
    → ((r : OwnerAccountRow) → p (f r) ≡ true)
    → find p (update_where (λ (r : OwnerAccountRow). r.id == row.id) f rows) ≡ some (f row)
find-refitted p f [] row distinct e fits = absurd (none-ne row e)
find-refitted p f (r ∷ rows) row (apart, distinct) e fits = elim (Bool-cases (p r)) [
  | inl t ↦
      let same : r ≡ row = some_unique (rw t at e) in
      subst
        (λ (z : OwnerAccountRow).
          find p (update_where (λ (x : OwnerAccountRow). x.id == z.id) f (r ∷ rows)) ≡ some (f z))
        same (rw (eq_refl r.id, fits r) refl)
  | inr miss ↦
      rw (differs rows r row p apart (rw miss at e), miss)
        (find-refitted p f rows row distinct (rw miss at e) fits)
]

pub find-appended :
    (p : OwnerAccountRow → Bool) (rows : List OwnerAccountRow) (x : OwnerAccountRow)
    → find p rows ≡ none
    → find p (rows ++ x ∷ []) ≡ (if p x then some x else none)
find-appended p [] x e = refl
find-appended p (r ∷ rows) x e = elim (Bool-cases (p r)) [
  | inl t ↦ absurd (none-ne r (sym (rw t at e)))
  | inr f ↦ rw f (find-appended p rows x (rw f at e))
]

pub by_id-appended :
    (rows : List OwnerAccountRow) (x : OwnerAccountRow)
    → by_id x.id rows ≡ none
    → by_id x.id (rows ++ x ∷ []) ≡ some x
by_id-appended rows x e =
    find-appended (λ (r : OwnerAccountRow). r.id == x.id) rows x e
    ∙ ap (λ b. if b then some x else none) (eq_refl x.id)
