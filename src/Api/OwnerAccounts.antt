-- ===== src/Api/OwnerAccounts.antt =====
-- note-store-owner-accounts.ts: the accounts of campaign owners and their Keycloak identities. Emails are
-- code units. `lower` is String.toLowerCase, `db_lower` the database's LOWER, and `is_configured_admin`
-- the membership in configuredSiteAdminEmails.
pub mod Found
pub mod Laws
pub mod Links
mod Tests
use dnd_notes.Common.{
  ℕ, String, Bool, true, false, ◌&&◌, not, Option, none, some, List, [], ◌∷◌, ◌++◌, ◌==◌, find,
  update_where, is_some, same_codes, if◌then◌else◌,
}
use dnd_notes.Api.Store.{Membership, is_owner, Store, equals}
use dnd_notes.Api.Campaigns.{default_campaign_id}
use dnd_notes.Api.References.{trim}

-- A row, and the account that mapOwnerAccountRow makes of it: is_site_admin is 1 or 0.
pub record OwnerAccountRow : Type 0 where
  pub id : String
  pub email : List ℕ
  pub display_name : String
  pub is_site_admin : Bool
  pub keycloak_sub : Option String
  pub created_at : String
  pub updated_at : String

pub record Accounts : Type 0 where
  pub owner_accounts : List OwnerAccountRow
  pub store : Store

pub record OwnerProvisioningInput : Type 0 where
  pub display_name : String
  pub email : List ℕ

pub record KeycloakOwnerIdentity : Type 0 where
  pub keycloak_sub : String
  pub email : List ℕ
  pub display_name : String

-- `conflict` is the OwnerKeycloakLinkConflictError.
pub data SignIn : Type 0 where
  signed_in : OwnerAccountRow → SignIn
  conflict : (owner_id : String) → SignIn
  not_created : SignIn

unfoldable pub select_by_keycloak_sub : String → Accounts → Option OwnerAccountRow
select_by_keycloak_sub sub s = find (λ r. equals r.keycloak_sub sub) s.owner_accounts

abbrev pub insert_account : OwnerAccountRow → Accounts → Accounts
insert_account row s = record s { owner_accounts = s.owner_accounts ++ row ∷ [] }

abbrev pub is_unclaimed_default : Membership → Bool
is_unclaimed_default m =
    m.campaign_id == default_campaign_id && (is_owner m.role && not (is_some m.user_id))

abbrev pub claim_default : OwnerAccountRow → (timestamp : String) → Accounts → Accounts
claim_default owner timestamp s = record s {
  store = record s.store {
    memberships =
        update_where is_unclaimed_default
          (λ m. record m {
            user_id = some owner.id;
            display_name = owner.display_name;
            updated_at = timestamp;
          })
          s.store.memberships;
  };
}

-- updateOwnerKeycloakIdentity.
unfoldable pub update_identity :
    (id : String)
    → (email : List ℕ) → (display_name : String) → (is_site_admin : Bool) → (sub timestamp : String)
    → Accounts
    → Accounts
update_identity id email display_name is_site_admin sub timestamp s = record s {
  owner_accounts =
      update_where (λ r. r.id == id)
        (λ r. record r {
          email = email;
          display_name = display_name;
          is_site_admin = is_site_admin;
          keycloak_sub = some sub;
          updated_at = timestamp;
        })
        s.owner_accounts;
}

module _ (lower db_lower : List ℕ → List ℕ) (is_configured_admin : List ℕ → Bool) where
  abbrev pub normalize_email_address : List ℕ → List ℕ
  normalize_email_address email = lower (trim email)

  unfoldable pub select_by_email : List ℕ → Accounts → Option OwnerAccountRow
  select_by_email email s =
      find (λ r. same_codes (db_lower r.email) (db_lower email)) s.owner_accounts

  abbrev pub new_owner : (id timestamp : String) → OwnerProvisioningInput → OwnerAccountRow
  new_owner id timestamp input = record {
    id = id;
    email = normalize_email_address input.email;
    display_name = input.display_name;
    is_site_admin = is_configured_admin (normalize_email_address input.email);
    keycloak_sub = none;
    created_at = timestamp;
    updated_at = timestamp;
  }

  -- `is_taken`: another transaction has taken the email since the search, and the INSERT fails by
  -- the unique index.
  unfoldable pub create_owner_account :
      (id timestamp : String)
      → (is_taken : Bool) → OwnerProvisioningInput
      → Accounts
      → Option OwnerAccountRow × Accounts
  create_owner_account id timestamp is_taken input s =
      elim (select_by_email (normalize_email_address input.email) s) [
        | some existing ↦ (none, s)
        | none ↦
            let owner = new_owner id timestamp input in
            if is_taken
            then (none, s)
            else (some owner, claim_default owner timestamp (insert_account owner s))
      ]

  abbrev pub email_of_existing :
      OwnerAccountRow → (normalized : List ℕ) → Option OwnerAccountRow → List ℕ
  email_of_existing owner normalized none = normalized
  email_of_existing owner normalized (some existing) =
      if not (existing.id == owner.id) then normalize_email_address owner.email else normalized

  unfoldable pub resolve_owner_email : OwnerAccountRow → (normalized : List ℕ) → Accounts → List ℕ
  resolve_owner_email owner normalized s =
      if same_codes (normalize_email_address owner.email) normalized
      then normalize_email_address owner.email
      else email_of_existing owner normalized (select_by_email normalized s)

  -- The account that has the identity.
  abbrev pub sign_in_linked :
      (timestamp : String) → KeycloakOwnerIdentity → OwnerAccountRow → Accounts → SignIn × Accounts
  sign_in_linked timestamp identity row s =
      let email = resolve_owner_email row (normalize_email_address identity.email) s in
      (
        signed_in (record row {
          email = email;
          display_name = identity.display_name;
          is_site_admin = is_configured_admin email;
          updated_at = timestamp;
        }),
        update_identity row.id email identity.display_name (is_configured_admin email)
            identity.keycloak_sub timestamp s,
      )

  -- The account that has the email.
  abbrev pub link_account :
      (timestamp : String) → KeycloakOwnerIdentity → OwnerAccountRow → Accounts → SignIn × Accounts
  link_account timestamp identity row s =
      let email = normalize_email_address identity.email in
      if is_some row.keycloak_sub && not (equals row.keycloak_sub identity.keycloak_sub)
      then (conflict row.id, s)
      else (
        signed_in (record row {
          display_name = identity.display_name;
          is_site_admin = is_configured_admin email;
          keycloak_sub = some identity.keycloak_sub;
          updated_at = timestamp;
        }),
        update_identity row.id email identity.display_name (is_configured_admin email)
            identity.keycloak_sub timestamp s,
      )

  abbrev pub link_created :
      (timestamp : String)
      → KeycloakOwnerIdentity
      → Option OwnerAccountRow × Accounts
      → SignIn × Accounts
  link_created timestamp identity (none, s) = (not_created, s)
  link_created timestamp identity (some owner, s) = (
    signed_in (record owner { keycloak_sub = some identity.keycloak_sub; updated_at = timestamp }),
    update_identity owner.id (normalize_email_address identity.email) owner.display_name
        owner.is_site_admin identity.keycloak_sub timestamp s,
  )

  abbrev pub find_by_email :
      (id timestamp : String)
      → (is_taken : Bool) → KeycloakOwnerIdentity
      → Option OwnerAccountRow
      → Accounts
      → SignIn × Accounts
  find_by_email id timestamp is_taken identity (some row) s = link_account timestamp identity row s
  find_by_email id timestamp is_taken identity none s = link_created timestamp identity (
      create_owner_account id timestamp is_taken
        (record {
          display_name = identity.display_name;
          email = normalize_email_address identity.email;
        })
        s)

  -- One time stands for the two that a creation reads.
  unfoldable pub find_or_create_owner_by_keycloak_identity :
      (id timestamp : String)
      → (is_taken : Bool) → KeycloakOwnerIdentity
      → Accounts
      → SignIn × Accounts
  find_or_create_owner_by_keycloak_identity id timestamp is_taken identity s =
      elim (select_by_keycloak_sub identity.keycloak_sub s) [
        | some row ↦ sign_in_linked timestamp identity row s
        | none ↦
            find_by_email id timestamp is_taken identity
              (select_by_email (normalize_email_address identity.email) s) s
      ]
