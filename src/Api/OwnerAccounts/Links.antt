-- ===== src/Api/OwnerAccounts/Links.antt =====
-- No sign-in takes an account from the identity that it is linked to.
use dnd_notes.Common.{
  ℕ, String, Bool, true, false, ◌&&◌, not, ◌==◌, ◌≡◌, refl, sym, ap, ◌∙◌, subst, Option, none, some,
  List, [], ◌∷◌, ◌++◌, find-true, find-update_where, update_where, is_some, map_some, Distinct,
  eq_iff, same_codes, if◌then◌else◌, arith, inl, inr, Bool-cases, none-ne, some_unique,
}
use dnd_notes.Api.Store.{equals}
use dnd_notes.Api.OwnerAccounts.{
  OwnerAccountRow, Accounts, KeycloakOwnerIdentity, SignIn, select_by_keycloak_sub, insert_account,
  update_identity, normalize_email_address, select_by_email, new_owner, create_owner_account,
  sign_in_linked, link_account, link_created, claim_default, find_by_email,
  find_or_create_owner_by_keycloak_identity,
}
use dnd_notes.Api.OwnerAccounts.Found.{ids, by_id, by_id-found, by_id-appended}

abbrev sub_of : Option OwnerAccountRow → Option String
sub_of none = none
sub_of (some r) = r.keycloak_sub

-- The identity that an account is linked to.
abbrev pub linked_sub : (id : String) → List OwnerAccountRow → Option String
linked_sub id rows = sub_of (by_id id rows)

-- Links that were there are there.
abbrev Keeps : List OwnerAccountRow → List OwnerAccountRow → Type 0
Keeps before after = (id k : String) → linked_sub id before ≡ some k → linked_sub id after ≡ some k

update-Keeps :
    (target : String) (f : OwnerAccountRow → OwnerAccountRow) (sub : String)
    (rows : List OwnerAccountRow)
    → ((r : OwnerAccountRow) → (f r).id ≡ r.id)
    → ((r : OwnerAccountRow) → (f r).keycloak_sub ≡ some sub)
    → ((k : String) → linked_sub target rows ≡ some k → k ≡ sub)
    → Keeps rows (update_where (λ (r : OwnerAccountRow). r.id == target) f rows)
update-Keeps target f sub rows same_id links own id k h =
    ap sub_of (
      find-update_where (λ (r : OwnerAccountRow). r.id == id)
        (λ (r : OwnerAccountRow). r.id == target) f rows (λ r. ap (λ x. x == id) (same_id r)))
    ∙ by_row (by_id id rows) refl
  where
    by_row :
        (o : Option OwnerAccountRow)
        → by_id id rows ≡ o
        → sub_of (map_some (λ (r : OwnerAccountRow). if r.id == target then f r else r) o) ≡ some k
    by_row none e = absurd (none-ne k (sym (ap sub_of e) ∙ h))
    by_row (some r) e = elim (Bool-cases (r.id == target)) [
      | inl hit ↦
          let same : id ≡ target =
            sym ((eq_iff r.id id).0 (find-true (λ (x : OwnerAccountRow). x.id == id) rows r e))
            ∙ (eq_iff r.id target).0 hit in
          rw hit (links r ∙ ap some (sym (own k (subst (λ x. linked_sub x rows ≡ some k) same h))))
      | inr miss ↦ rw miss (sym (ap sub_of e) ∙ h)
    ]

append-Keeps : (rows : List OwnerAccountRow) (x : OwnerAccountRow) → Keeps rows (rows ++ x ∷ [])
append-Keeps [] x id k h = absurd (none-ne k h)
append-Keeps (r ∷ rows) x id k h = elim (Bool-cases (r.id == id)) [
  | inl hit ↦ rw hit (rw hit at h)
  | inr miss ↦ rw miss (append-Keeps rows x id k (rw miss at h))
]

equals-true : (o : Option String) (k sub : String) → o ≡ some k → equals o sub ≡ true → k ≡ sub
equals-true none k sub e h = absurd (none-ne k e)
equals-true (some j) k sub e h = sym (some_unique e) ∙ (eq_iff j sub).0 h

own_link :
    (o : Option String) (sub : String)
    → (is_some o && not (equals o sub)) ≡ false
    → (k : String) → o ≡ some k
    → k ≡ sub
own_link none sub free k e = absurd (none-ne k e)
own_link (some j) sub free k e = sym (some_unique e) ∙ (eq_iff j sub).0 (ground (arith, free))

module _ (lower db_lower : List ℕ → List ℕ) (is_configured_admin : List ℕ → Bool) where
  link_account-Keeps :
      (timestamp : String) (identity : KeycloakOwnerIdentity) (row : OwnerAccountRow) (s : Accounts)
      → by_id row.id s.owner_accounts ≡ some row
      → Keeps s.owner_accounts
          (link_account lower db_lower is_configured_admin timestamp identity row
            s).1.owner_accounts
  unfolding update_identity
  link_account-Keeps timestamp identity row s found =
      elim (Bool-cases
        (is_some row.keycloak_sub && not (equals row.keycloak_sub identity.keycloak_sub))) [
          | inl other ↦ rw other (λ id k h. h)
          | inr free ↦ rw free (
              update-Keeps row.id _ identity.keycloak_sub s.owner_accounts (λ r. refl) (λ r. refl)
                (λ k e.
                  own_link row.keycloak_sub identity.keycloak_sub free k
                    (sym (ap sub_of found) ∙ e)))
        ]

  sign_in_linked-Keeps :
      (timestamp : String) (identity : KeycloakOwnerIdentity) (row : OwnerAccountRow) (s : Accounts)
      → by_id row.id s.owner_accounts ≡ some row
      → equals row.keycloak_sub identity.keycloak_sub ≡ true
      → Keeps s.owner_accounts
          (sign_in_linked lower db_lower is_configured_admin timestamp identity row
            s).1.owner_accounts
  unfolding update_identity
  sign_in_linked-Keeps timestamp identity row s found linked =
      update-Keeps row.id _ identity.keycloak_sub s.owner_accounts (λ r. refl) (λ r. refl)
        (λ k e.
          equals-true row.keycloak_sub k identity.keycloak_sub (sym (ap sub_of found) ∙ e) linked)

  create-Keeps :
      (id timestamp : String) (is_taken : Bool) (identity : KeycloakOwnerIdentity) (s : Accounts)
      → by_id id s.owner_accounts ≡ none
      → Keeps s.owner_accounts
          (find_by_email lower db_lower is_configured_admin id timestamp is_taken identity none
            s).1.owner_accounts
  unfolding update_identity create_owner_account
  create-Keeps id timestamp is_taken identity s new =
      by_search
        (select_by_email lower db_lower is_configured_admin (normalize (normalize identity.email))
          s)
        is_taken
    where
      normalize : List ℕ → List ℕ
      normalize = normalize_email_address lower db_lower is_configured_admin

      owner : OwnerAccountRow
      owner =
          new_owner lower db_lower is_configured_admin id timestamp
            (record { display_name = identity.display_name; email = normalize identity.email })

      by_search :
          (o : Option OwnerAccountRow) (taken : Bool)
          → Keeps s.owner_accounts
              (link_created lower db_lower is_configured_admin timestamp identity (elim o [
                | some existing ↦ (none, s)
                | none ↦
                    if taken
                    then (none, s)
                    else (some owner, claim_default owner timestamp (insert_account owner s))
              ])).1.owner_accounts
      by_search (some existing) taken = λ i k h. h
      by_search none true = λ i k h. h
      by_search none false = λ i k h.
          update-Keeps id _ identity.keycloak_sub (s.owner_accounts ++ owner ∷ []) (λ r. refl)
            (λ r. refl)
            (λ k e.
              absurd (none-ne k (sym (ap sub_of (by_id-appended s.owner_accounts owner new)) ∙ e)))
            i k (append-Keeps s.owner_accounts owner i k h)

  -- Whatever identity signs in, an account that is linked to an identity stays linked to that one: also where
  -- the identity has the email of the account. Identifiers are distinct, and the new one is not in use.
  pub find_or_create-keeps_links :
      (id timestamp : String) (is_taken : Bool) (identity : KeycloakOwnerIdentity) (s : Accounts)
      (account sub : String)
      → Distinct (ids s)
      → by_id id s.owner_accounts ≡ none
      → linked_sub account s.owner_accounts ≡ some sub
      → linked_sub account
          (find_or_create_owner_by_keycloak_identity lower db_lower is_configured_admin id timestamp
            is_taken identity s).1.owner_accounts
        ≡ some sub
  unfolding find_or_create_owner_by_keycloak_identity select_by_email select_by_keycloak_sub
  find_or_create-keeps_links id timestamp is_taken identity s account sub distinct new =
      by_sub (select_by_keycloak_sub identity.keycloak_sub s) refl account sub
    where
      email : List ℕ
      email = normalize_email_address lower db_lower is_configured_admin identity.email

      by_email :
          (o : Option OwnerAccountRow)
          → select_by_email lower db_lower is_configured_admin email s ≡ o
          → Keeps s.owner_accounts
              (find_by_email lower db_lower is_configured_admin id timestamp is_taken identity o
                s).1.owner_accounts
      by_email none e = create-Keeps id timestamp is_taken identity s new
      by_email (some row) e = link_account-Keeps timestamp identity row s (
          by_id-found (λ r. same_codes (db_lower r.email) (db_lower email)) s.owner_accounts row
            distinct e)

      by_sub :
          (o : Option OwnerAccountRow)
          → select_by_keycloak_sub identity.keycloak_sub s ≡ o
          → Keeps s.owner_accounts
              (elim o as (λ _. SignIn × Accounts) [
                | some row ↦
                    sign_in_linked lower db_lower is_configured_admin timestamp identity row s
                | none ↦
                    find_by_email lower db_lower is_configured_admin id timestamp is_taken identity
                      (select_by_email lower db_lower is_configured_admin email s)
                      s
              ]).1.owner_accounts
      by_sub (some row) e =
          sign_in_linked-Keeps timestamp identity row s
            (by_id-found (λ r. equals r.keycloak_sub identity.keycloak_sub) s.owner_accounts row
              distinct e)
            (find-true (λ r. equals r.keycloak_sub identity.keycloak_sub) s.owner_accounts row e)
      by_sub none e = by_email (select_by_email lower db_lower is_configured_admin email s) refl
