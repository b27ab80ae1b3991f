-- ===== src/Broker/Provider.antt =====
-- nexus-broker/pkg/provider/store.go: the profiles of the providers. A row that is deleted stays in
-- the table; the names of the other rows are unique by an index. Errors are their texts, since the
-- handlers look into them; a statement may fail with a text of the driver.
pub mod Fields
pub mod Handlers
pub mod Refinement
use Prim.Native.Char.{code}
use nexus_framework.Prelude.{
  ℕ, suc, String, Bool, true, false, not, ◌&&◌, ◌||◌, Option, none, some, List, [], ◌∷◌, ◌==◌, ◌=?◌,
  leb, if◌then◌else◌, Result, ok, err,
}
use nexus_framework.Prelude.Text.{◌<>◌, trim_space, to_lower}
use nexus_framework.Json.{Value}
use nexus_framework.Broker.Profile.{Profile, check_profile, stored_profile}

pub record ProfileRow : Type 0 where
  pub id : ℕ
  pub profile : Profile
  pub deleted : Bool

pub data StoreStatement : Type 0 where
  check_name insert_profile select_profile select_by_name update_row delete_row delete_by_name
        select_list :
      StoreStatement

-- The error of a statement, if it fails.
abbrev pub StoreFaults : Type 0
StoreFaults = StoreStatement → Option String

-- The first row that is not deleted, with a name.
unfoldable pub find_named : String → List ProfileRow → Option ProfileRow
find_named name [] = none
find_named name (r ∷ l) =
    if not r.deleted && (r.profile).name == name then some r else find_named name l

abbrev failing : Option String → String → Option String
failing none prefix = none
failing (some text) prefix = some (prefix <> text)

-- The insert, after the checks; the identifier is the database's.
unfoldable pub insert_row :
    StoreFaults → ℕ → Profile → List ProfileRow → Result String ℕ × List ProfileRow
insert_row faults id p l =
    elim (failing (faults insert_profile) "database: failed to create provider profile: ") [
      | some text ↦ (err text, l)
      | none ↦ (ok id, record { id = id; profile = stored_profile p; deleted = false } ∷ l)
    ]

-- RegisterProfile, on the decoded text or the text of the decoder's error.
unfoldable pub register_profile :
    StoreFaults → ℕ → Result String Profile → List ProfileRow → Result String ℕ × List ProfileRow
register_profile faults id (err text) l = (err ("profile: invalid JSON: " <> text), l)
register_profile faults id (ok p) l = elim (check_profile p) [
  | some text ↦ (err text, l)
  | none ↦ elim (failing (faults check_name) "database: error checking provider existence: ") [
    | some text ↦ (err text, l)
    | none ↦ elim (find_named p.name l) [
      | some r ↦ (err ("name: provider with name '" <> p.name <> "' already exists"), l)
      | none ↦ insert_row faults id p l
    ]
  ]
]

-- The row with an identifier, if it is not deleted.
unfoldable pub find_row : ℕ → List ProfileRow → Option ProfileRow
find_row id [] = none
find_row id (r ∷ l) = if r.id =? id && not r.deleted then some r else find_row id l

-- GetProfile
unfoldable pub get_profile : StoreFaults → ℕ → List ProfileRow → Option ProfileRow
get_profile faults id l = elim (faults select_profile) [ some text ↦ none | none ↦ find_row id l ]

-- WHERE LOWER(name) = $1 AND deleted_at IS NULL
unfoldable pub rows_named : String → List ProfileRow → List ProfileRow
rows_named lower [] = []
rows_named lower (r ∷ l) =
    let rest = rows_named lower l in
    if not r.deleted && to_lower (r.profile).name == lower then r ∷ rest else rest

abbrev pub single : List ProfileRow → Option ProfileRow
single (r ∷ []) = some r
single _ = none

-- GetProfileByName
unfoldable pub get_profile_by_name : StoreFaults → String → List ProfileRow → Option ProfileRow
get_profile_by_name faults name l = elim (faults select_by_name) [
  | some text ↦ none
  | none ↦ single (rows_named (to_lower name) l)
]

-- The index on the names: whether another row that is not deleted has a name.
unfoldable pub is_taken : ℕ → String → List ProfileRow → Bool
is_taken id name [] = false
is_taken id name (r ∷ l) =
    not (r.id =? id) && not r.deleted && (r.profile).name == name || is_taken id name l

unfoldable pub write_row : ℕ → Profile → List ProfileRow → List ProfileRow
write_row id p [] = []
write_row id p (r ∷ l) =
    (if r.id =? id && not r.deleted then record r { profile = p } else r) ∷ write_row id p l

abbrev is_there : Option ProfileRow → Bool
is_there none = false
is_there (some r) = true

-- UPDATE ... WHERE id = $16 AND deleted_at IS NULL
unfoldable pub update_rows :
    StoreFaults → String → ℕ → Profile → List ProfileRow → Option String × List ProfileRow
update_rows faults prefix id p l = elim (failing (faults update_row) prefix) [
  | some text ↦ (some text, l)
  | none ↦
      if is_there (find_row id l) && is_taken id p.name l
      then (some (prefix <> "duplicate key"), l)
      else (none, write_row id p l)
]

-- UpdateProfile: the text of the error, if there is one. Nothing is validated.
unfoldable pub update_profile :
    StoreFaults → ℕ → Profile → List ProfileRow → Option String × List ProfileRow
update_profile faults id p l = update_rows faults "failed to update provider profile: " id p l

unfoldable pub delete_rows : (ProfileRow → Bool) → List ProfileRow → List ProfileRow
delete_rows test [] = []
delete_rows test (r ∷ l) = (if test r then record r { deleted = true } else r) ∷ delete_rows test l

unfoldable pub count_rows : (ProfileRow → Bool) → List ProfileRow → ℕ
count_rows test [] = 0
count_rows test (r ∷ l) = let n = count_rows test l in if test r then suc n else n

-- DeleteProfile
unfoldable pub delete_profile : StoreFaults → ℕ → List ProfileRow → Option String × List ProfileRow
delete_profile faults id l =
    elim (failing (faults delete_row) "failed to delete provider profile: ") [
      | some text ↦ (some text, l)
      | none ↦ (none, delete_rows (λ r. r.id =? id) l)
    ]

-- DeleteProfileByName: the number of rows
unfoldable pub delete_profile_by_name :
    StoreFaults → String → List ProfileRow → Result String ℕ × List ProfileRow
delete_profile_by_name faults name l =
    let test : ProfileRow → Bool = λ r. (r.profile).name == name && not r.deleted in
    elim (failing (faults delete_by_name) "failed to delete provider profiles: ") [
      | some text ↦ (err text, l)
      | none ↦ (ok (count_rows test l), delete_rows test l)
    ]

-- ListProfiles: the rows that are not deleted, the newest first
unfoldable pub active_rows : List ProfileRow → List ProfileRow
active_rows [] = []
active_rows (r ∷ l) = let rest = active_rows l in if r.deleted then rest else r ∷ rest

unfoldable pub list_profiles : StoreFaults → List ProfileRow → Option (List ProfileRow)
list_profiles faults l = elim (faults select_list) [
  | some text ↦ none
  | none ↦ some (active_rows l)
]
