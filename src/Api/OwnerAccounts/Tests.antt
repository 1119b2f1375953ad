-- ===== src/Api/OwnerAccounts/Tests.antt =====
-- The emails here have no capitals, so lower case leaves them. Two accounts, one of them linked, and identities that sign in; the theorems at work on them.
use dnd_notes.Common.{false, codes, same_codes, ◌≡◌, unequal, refl, none, some, [], ◌∷◌}
use dnd_notes.Api.References.{trim_start, trim_end}
use dnd_notes.Api.References.Laws.{trim-trim}
use dnd_notes.Api.OwnerAccounts.{
  OwnerAccountRow, Accounts, KeycloakOwnerIdentity, conflict, select_by_keycloak_sub,
  select_by_email, find_or_create_owner_by_keycloak_identity,
}
use dnd_notes.Api.OwnerAccounts.Laws.{IsSignedIn, find_or_create-IsSignedIn}
use dnd_notes.Api.OwnerAccounts.Links.{linked_sub, find_or_create-keeps_links}

abbrev alice : OwnerAccountRow
alice = record {
  id = "u1";
  email = codes "alice@x";
  display_name = "Alice";
  is_site_admin = false;
  keycloak_sub = some "k1";
  created_at = "1";
  updated_at = "1";
}

abbrev bob : OwnerAccountRow
bob = record alice { id = "u2"; email = codes "bob@x"; display_name = "Bob"; keycloak_sub = none }

abbrev accounts : Accounts
accounts = record {
  owner_accounts = alice ∷ bob ∷ [];
  store = record {
    campaigns = [];
    memberships = [];
    notes = [];
    references = [];
    share_links = [];
  };
}

abbrev mallory : KeycloakOwnerIdentity
mallory = record { keycloak_sub = "k9"; email = codes "alice@x"; display_name = "Mallory" }

refused :
    (find_or_create_owner_by_keycloak_identity
      (λ e. e)
      (λ e. e)
      (same_codes (codes "bob@x"))
      "u9"
      "2"
      false
      mallory
      accounts).0
    ≡ conflict "u1"
unfolding find_or_create_owner_by_keycloak_identity select_by_keycloak_sub select_by_email
    trim_start trim_end
refused = refl

find_or_create-keeps_links_example :
    linked_sub "u1"
      (find_or_create_owner_by_keycloak_identity
        (λ e. e)
        (λ e. e)
        (same_codes (codes "bob@x"))
        "u9"
        "2"
        false
        mallory
        accounts).1.owner_accounts
    ≡ some "k1"
find_or_create-keeps_links_example =
    find_or_create-keeps_links (λ e. e) (λ e. e) (same_codes (codes "bob@x")) "u9" "2" false mallory
      accounts "u1" "k1" ((unequal "u2" "u1" refl, tt), (tt, tt)) refl refl

find_or_create-IsSignedIn_example :
    IsSignedIn
      (λ e. e)
      (λ e. e)
      (same_codes (codes "alice@x"))
      trim-trim
      false
      mallory
      accounts
      (find_or_create_owner_by_keycloak_identity
        (λ e. e)
        (λ e. e)
        (same_codes (codes "alice@x"))
        "u9"
        "2"
        false
        mallory
        accounts)
find_or_create-IsSignedIn_example =
    find_or_create-IsSignedIn (λ e. e) (λ e. e) (same_codes (codes "alice@x")) trim-trim "u9" "2"
      false mallory accounts ((unequal "u2" "u1" refl, tt), (tt, tt)) refl
