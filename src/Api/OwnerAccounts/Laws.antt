-- ===== src/Api/OwnerAccounts/Laws.antt =====
-- Who is signed in, and which links between accounts and identities stay.
use dnd_notes.Common.{
  ℕ, String, Bool, true, false, ◌&&◌, not, ◌==◌, ◌≡◌, ◌≢◌, refl, sym, subst, eq_iff, arith, ap, ◌∙◌,
  Option, none, some, List, [], ◌∷◌, ◌++◌, is_some, map_some, Distinct, eq_refl, if◌then◌else◌, inl,
  inr, Bool-cases,
}
use dnd_notes.Api.Store.{equals}
use dnd_notes.Api.OwnerAccounts.{
  OwnerAccountRow, Accounts, OwnerProvisioningInput, KeycloakOwnerIdentity, SignIn, signed_in,
  conflict, not_created, select_by_keycloak_sub, insert_account, update_identity,
  normalize_email_address, select_by_email, new_owner, create_owner_account, sign_in_linked,
  link_account, link_created, claim_default, find_by_email,
  find_or_create_owner_by_keycloak_identity,
}
use dnd_notes.Api.OwnerAccounts.Found.{
  ids, by_id, by_id-found, find-fitted, find-refitted, find-appended, by_id-appended,
}

module _ (lower db_lower : List ℕ → List ℕ) (is_configured_admin : List ℕ → Bool)
    (normalized : (email : List ℕ)
      → normalize_email_address lower db_lower is_configured_admin
          (normalize_email_address lower db_lower is_configured_admin email)
        ≡ normalize_email_address lower db_lower is_configured_admin email) where
  -- The account with the identity is the one that is answered, and its rights are those of its email. A
  -- refusal changes nothing, and no account has the identity: a conflict is with the account of the email, which
  -- another identity has, and nothing is created where there is no such account but the email was taken meanwhile.
  abbrev pub IsSignedIn :
      (is_taken : Bool) → KeycloakOwnerIdentity → Accounts → SignIn × Accounts → Type 0
  IsSignedIn is_taken identity s (signed_in owner, t) =
      (row : OwnerAccountRow) × (select_by_keycloak_sub identity.keycloak_sub t ≡ some row)
      × (row.id ≡ owner.id)
      × (row.is_site_admin ≡ is_configured_admin row.email)
      × (owner.is_site_admin ≡ row.is_site_admin)
  IsSignedIn is_taken identity s (conflict owner_id, t) =
      (t ≡ s)
      × (select_by_keycloak_sub identity.keycloak_sub s ≡ none)
      × ((row : OwnerAccountRow) × (select_by_email lower db_lower is_configured_admin
              (normalize_email_address lower db_lower is_configured_admin identity.email) s
            ≡ some row)
          × (row.id ≡ owner_id)
          × ((other : String) × (row.keycloak_sub ≡ some other) × (other ≢ identity.keycloak_sub)))
  IsSignedIn is_taken identity s (not_created, t) =
      (t ≡ s)
      × (select_by_keycloak_sub identity.keycloak_sub s ≡ none)
      × (select_by_email lower db_lower is_configured_admin
            (normalize_email_address lower db_lower is_configured_admin identity.email) s
          ≡ none)
      × (is_taken ≡ true)

  linked_elsewhere :
      (o : Option String) (sub : String)
      → (is_some o && not (equals o sub)) ≡ true
      → (other : String) × (o ≡ some other) × (other ≢ sub)
  linked_elsewhere none sub e = cc
  linked_elsewhere (some other) sub e =
      (other, refl, λ same. ground (arith, e, eq_iff other sub, same))

  sign_in_linked-IsSignedIn :
      (timestamp : String) (is_taken : Bool) (identity : KeycloakOwnerIdentity)
      (row : OwnerAccountRow) (s : Accounts)
      → Distinct (ids s)
      → select_by_keycloak_sub identity.keycloak_sub s ≡ some row
      → IsSignedIn is_taken identity s
          (sign_in_linked lower db_lower is_configured_admin timestamp identity row s)
  unfolding select_by_keycloak_sub update_identity
  sign_in_linked-IsSignedIn timestamp is_taken identity row s distinct found = (
    _,
    find-refitted (λ r. equals r.keycloak_sub identity.keycloak_sub) _ s.owner_accounts row distinct
        found (λ r. eq_refl identity.keycloak_sub),
    refl,
    refl,
    refl,
  )

  link_account-IsSignedIn :
      (timestamp : String) (is_taken : Bool) (identity : KeycloakOwnerIdentity)
      (row : OwnerAccountRow) (s : Accounts)
      → Distinct (ids s)
      → select_by_keycloak_sub identity.keycloak_sub s ≡ none
      → select_by_email lower db_lower is_configured_admin
          (normalize_email_address lower db_lower is_configured_admin identity.email)
          s
        ≡ some row
      → IsSignedIn is_taken identity s
          (link_account lower db_lower is_configured_admin timestamp identity row s)
  unfolding select_by_keycloak_sub update_identity select_by_email
  link_account-IsSignedIn timestamp is_taken identity row s distinct unlinked found =
      elim (Bool-cases
        (is_some row.keycloak_sub && not (equals row.keycloak_sub identity.keycloak_sub))) [
          | inl other ↦ rw other (
            refl,
            unlinked,
            (row, found, refl, linked_elsewhere row.keycloak_sub identity.keycloak_sub other),
          )
          | inr free ↦ rw free (
            _,
            find-fitted (λ r. equals r.keycloak_sub identity.keycloak_sub) (λ r. r.id == row.id) _
                  s.owner_accounts unlinked (λ r. eq_refl identity.keycloak_sub)
                ∙ ap (map_some _) (by_id-found _ s.owner_accounts row distinct found),
            refl,
            refl,
            refl,
          )
        ]

  create-IsSignedIn :
      (id timestamp : String) (is_taken : Bool) (identity : KeycloakOwnerIdentity) (s : Accounts)
      → by_id id s.owner_accounts ≡ none
      → select_by_keycloak_sub identity.keycloak_sub s ≡ none
      → select_by_email lower db_lower is_configured_admin
          (normalize_email_address lower db_lower is_configured_admin identity.email)
          s
        ≡ none
      → IsSignedIn is_taken identity s
          (find_by_email lower db_lower is_configured_admin id timestamp is_taken identity none s)
  unfolding select_by_keycloak_sub update_identity create_owner_account
  create-IsSignedIn id timestamp is_taken identity s new unlinked unknown =
      subst
        (λ o.
          IsSignedIn is_taken identity s (
            link_created lower db_lower is_configured_admin timestamp identity
              (created o is_taken)))
        (sym again) (by_taken is_taken refl)
    where
      normalize : List ℕ → List ℕ
      normalize = normalize_email_address lower db_lower is_configured_admin

      input : OwnerProvisioningInput
      input = record { display_name = identity.display_name; email = normalize identity.email }

      owner : OwnerAccountRow
      owner = new_owner lower db_lower is_configured_admin id timestamp input

      has_sub : OwnerAccountRow → Bool
      has_sub r = equals r.keycloak_sub identity.keycloak_sub

      again :
          select_by_email lower db_lower is_configured_admin
            (normalize (normalize identity.email))
            s
          ≡ none
      again =
          ap (λ e. select_by_email lower db_lower is_configured_admin e s)
            (normalized identity.email)
          ∙ unknown

      created : Option OwnerAccountRow → Bool → Option OwnerAccountRow × Accounts
      created o taken = elim o [
        | some existing ↦ (none, s)
        | none ↦
            if taken
            then (none, s)
            else (some owner, claim_default owner timestamp (insert_account owner s))
      ]

      by_taken :
          (taken : Bool)
          → is_taken ≡ taken
          → IsSignedIn is_taken identity s (
              link_created lower db_lower is_configured_admin timestamp identity
                (created none taken))
      by_taken true e = (refl, unlinked, unknown, e)
      by_taken false e = (
        _,
        find-fitted has_sub (λ r. r.id == id) _ (s.owner_accounts ++ owner ∷ [])
              (find-appended has_sub s.owner_accounts owner unlinked)
              (λ r. eq_refl identity.keycloak_sub)
            ∙ ap (map_some _) (by_id-appended s.owner_accounts owner new),
        refl,
        ap is_configured_admin (normalized identity.email),
        refl,
      )

  -- Who signs in with an identity is answered an account, which the next search for the identity finds, and
  -- which is a site admin's exactly where its email is configured so, but for two refusals. They
  -- change nothing, and no account has the identity: either the account of the email is linked to another
  -- identity, or no account has the email and another transaction takes it meanwhile. Identifiers are distinct, the
  -- new one is not in use, and normalizing an email twice is normalizing it once.
  pub find_or_create-IsSignedIn :
      (id timestamp : String) (is_taken : Bool) (identity : KeycloakOwnerIdentity) (s : Accounts)
      → Distinct (ids s)
      → by_id id s.owner_accounts ≡ none
      → IsSignedIn is_taken identity s (
          find_or_create_owner_by_keycloak_identity lower db_lower is_configured_admin id timestamp
            is_taken identity s)
  unfolding find_or_create_owner_by_keycloak_identity select_by_email
  find_or_create-IsSignedIn id timestamp is_taken identity s distinct new =
      by_sub (select_by_keycloak_sub identity.keycloak_sub s) refl
    where
      email : List ℕ
      email = normalize_email_address lower db_lower is_configured_admin identity.email

      by_email :
          select_by_keycloak_sub identity.keycloak_sub s ≡ none
          → (o : Option OwnerAccountRow)
          → select_by_email lower db_lower is_configured_admin email s ≡ o
          → IsSignedIn is_taken identity s
              (find_by_email lower db_lower is_configured_admin id timestamp is_taken identity o s)
      by_email unlinked none e = create-IsSignedIn id timestamp is_taken identity s new unlinked e
      by_email unlinked (some row) e =
          link_account-IsSignedIn timestamp is_taken identity row s distinct unlinked e

      by_sub :
          (o : Option OwnerAccountRow)
          → select_by_keycloak_sub identity.keycloak_sub s ≡ o
          → IsSignedIn is_taken identity s (elim o [
            | some row ↦ sign_in_linked lower db_lower is_configured_admin timestamp identity row s
            | none ↦
                find_by_email lower db_lower is_configured_admin id timestamp is_taken identity
                  (select_by_email lower db_lower is_configured_admin email s)
                  s
          ])
      by_sub (some row) e = sign_in_linked-IsSignedIn timestamp is_taken identity row s distinct e
      by_sub none e = by_email e (select_by_email lower db_lower is_configured_admin email s) refl
