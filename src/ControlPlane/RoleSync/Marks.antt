-- ===== src/ControlPlane/RoleSync/Marks.antt =====
-- Which accounts a tick marks as complete.
use dnd_notes.Common.{String, ◌≡◌, ◌⊎◌, some, List, [], ◌∷◌, ◌++◌, given, All}
use dnd_notes.ControlPlane.RoleSync.{Account, Answers, Assignment}

-- All tenants of the account were listed, and each has the role or no client to have it on.
abbrev pub IsInSync : Answers → Account → Type 0
IsInSync w a =
    (sub : String) × (given a.keycloak_sub ≡ some sub)
    × ((tenants : List String) × (w.tenants_of a.id ≡ some tenants)
        × All (λ t. (w.assign sub t ≡ Assignment.assigned) ⊎ (w.assign sub t ≡ Assignment.absent))
            tenants)

abbrev pub Among : List Account → Account → Type 0
Among [] a = ⊥
Among (x ∷ xs) a = (a ≡ x) ⊎ Among xs a

-- A pending account with this identifier is in sync.
abbrev pub HasSynced : Answers → List Account → String → Type 0
HasSynced w accounts id = (a : Account) × Among accounts a × (a.id ≡ id) × IsInSync w a

-- The marks that were added belong to pending accounts in sync.
abbrev pub Marks : Answers → List Account → List String → List String → Type 0
Marks w accounts before after =
    (added : List String) × (after ≡ before ++ added) × All (HasSynced w accounts) added
