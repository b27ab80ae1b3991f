-- ===== src/Broker/Provider/Handlers.antt =====
-- nexus-broker/pkg/handlers/providers.go: the handlers on the profiles. Audit events are written
-- where there is an audit service and the store has succeeded.
use nexus_framework.Prelude.{
  ℕ, zero, suc, String, Bool, ◌||◌, Option, none, some, List, [], ◌∷◌, ◌++◌, ◌==◌, if◌then◌else◌,
  Result, ok, err,
}
use nexus_framework.Prelude.Text.{◌<>◌, trim_space, to_lower, split, contains}
use nexus_framework.Prelude.Maps.{Assoc}
use nexus_framework.Json.{Value, str}
use nexus_framework.Broker.Profile.{Profile}
use nexus_framework.Broker.Provider.{
  ProfileRow, StoreFaults, register_profile, get_profile, get_profile_by_name, update_profile,
  delete_profile, delete_profile_by_name, list_profiles,
}
use nexus_framework.Broker.Provider.Fields.{Columns, Integration, patch_profile, get_metadata}

-- An error, a created profile, a profile, its identifier, all names, the metadata, a number of
-- deleted rows, or a status alone.
pub data Reply : Type 0 where
  failure : ℕ → String → Reply
  created : ℕ → Reply
  profile : ProfileRow → Reply
  identifier : ℕ → Reply
  profiles : List ProfileRow → Reply
  metadata : Assoc (Assoc Integration) → Reply
  deleted_rows : ℕ → Reply
  done : Reply

pub data ProfileEvent : Type 0 where
  profile_created : ℕ → String → ProfileEvent
  profile_updated : ℕ → String → ProfileEvent
  profile_patched : ℕ → Assoc Value → ProfileEvent
  profile_deleted : ℕ → ProfileEvent
  profiles_deleted : String → ℕ → ProfileEvent

pub record Registry : Type 0 where
  pub rows : List ProfileRow
  pub events : List ProfileEvent

-- What the handlers are given: the faults of the store, whether there is an audit service, UUIDs,
-- and the columns of a patch. An event that the service fails to write is only logged.
pub record Setting : Type 0 where
  pub faults : StoreFaults
  pub audit : Bool
  pub audit_fails : Bool
  pub parse_uuid : String → Option ℕ
  pub columns : Columns

abbrev logged : Setting → ProfileEvent → Registry → Registry
logged s e g =
    if s.audit then (if s.audit_fails then g else record g { events = g.events ++ e ∷ [] }) else g

abbrev identified : Setting → String → Registry → (ℕ → Reply × Registry) → Reply × Registry
identified s text g f = elim (s.parse_uuid text) [
  | none ↦ (failure 400 "invalid_provider_id", g)
  | some id ↦ f id
]

-- Get
unfoldable pub get_handler : Setting → String → Registry → Reply × Registry
get_handler s text g = identified s text g (λ id. elim (get_profile s.faults id g.rows) [
  | none ↦ (failure 404 "provider_not_found", g)
  | some r ↦ (profile r, g)
])

-- The end of a handler that changes rows.
abbrev finished :
    Setting → String → ProfileEvent → Registry → Option String × List ProfileRow → Reply × Registry
finished s code e g (some text, l) = (failure 500 code, record g { rows = l })
finished s code e g (none, l) = (done, logged s e (record g { rows = l }))

-- Update; the body is decoded or not.
unfoldable pub update_handler : Setting → String → Option Profile → Registry → Reply × Registry
update_handler s text body g = identified s text g (λ id. elim body [
  | none ↦ (failure 400 "invalid_json", g)
  | some p ↦
      finished s "update_failed" (profile_updated id p.name) g (update_profile s.faults id p g.rows)
])

-- The fields of an audited patch: those of the client are hidden.
unfoldable pub redacted : Assoc Value → Assoc Value
redacted [] = []
redacted ((k, v) ∷ l) =
    (k, if k == "client_secret" || k == "client_id" then str "[REDACTED]" else v) ∷ redacted l

-- Patch
unfoldable pub patch_handler : Setting → String → Option (Assoc Value) → Registry → Reply × Registry
patch_handler s text body g = identified s text g (λ id. elim body [
  | none ↦ (failure 400 "invalid_json", g)
  | some updates ↦
      finished s "patch_failed" (profile_patched id (redacted updates)) g
        (patch_profile s.faults s.columns id updates g.rows)
])

-- Delete
unfoldable pub delete_handler : Setting → String → Registry → Reply × Registry
delete_handler s text g =
    identified s text g
      (λ id. finished s "delete_failed" (profile_deleted id) g (delete_profile s.faults id g.rows))

-- The key of a failed registration: the second part of the error's text, between colons, for a
-- missing field.
abbrev second : List String → String
second (a ∷ b ∷ l) = b
second _ = ""

unfoldable pub registration_error : String → String
registration_error text =
    if contains "name:" text || contains "invalid provider name" text
    then "invalid_provider_name"
    else if contains "missing required field" text
    then "missing_" <> trim_space (second (split b':' text))
    else "provider_creation_failed"

abbrev registered :
    Setting → String → Registry → Result String ℕ × List ProfileRow → Reply × Registry
registered s name g (err text, l) = (failure 400 (registration_error text), record g { rows = l })
registered s name g (ok id, l) =
    (created id, logged s (profile_created id name) (record g { rows = l }))

abbrev name_of : Result String Profile → String
name_of (ok p) = p.name
name_of (err text) = ""

-- Register: `none` is a body that does not decode, and `some none` one without a profile. `id` is
-- the identifier that the database draws.
unfoldable pub register_handler :
    Setting → ℕ → Option (Option (Result String Profile)) → Registry → Reply × Registry
register_handler s id none g = (failure 400 "invalid_json", g)
register_handler s id (some none) g = (failure 400 "missing_profile", g)
register_handler s id (some (some body)) g =
    registered s (name_of body) g (register_profile s.faults id body g.rows)

-- List
unfoldable pub list_handler : Setting → Registry → Reply × Registry
list_handler s g = elim (list_profiles s.faults g.rows) [
  | none ↦ (failure 500 "list_failed", g)
  | some l ↦ (profiles l, g)
]

-- GetByName
unfoldable pub get_by_name_handler : Setting → String → Registry → Reply × Registry
get_by_name_handler s name g =
    if name == ""
    then (failure 400 "missing_name", g)
    else (elim (get_profile_by_name s.faults (to_lower (trim_space name)) g.rows) [
      | none ↦ (failure 404 "provider_not_found", g)
      | some r ↦ (identifier r.id, g)
    ])

abbrev removed : Setting → String → Registry → Result String ℕ × List ProfileRow → Reply × Registry
removed s name g (err text, l) = (failure 500 "delete_failed", record g { rows = l })
removed s name g (ok zero, l) = (failure 404 "provider_not_found", record g { rows = l })
removed s name g (ok (suc n), l) =
    (deleted_rows (suc n), logged s (profiles_deleted name (suc n)) (record g { rows = l }))

-- DeleteByName
unfoldable pub delete_by_name_handler : Setting → String → Registry → Reply × Registry
delete_by_name_handler s name g =
    if name == ""
    then (failure 400 "missing_name", g)
    else removed s name g (delete_profile_by_name s.faults name g.rows)

-- Metadata
unfoldable pub metadata_handler : Setting → Registry → Reply × Registry
metadata_handler s g = elim (get_metadata s.faults g.rows) [
  | none ↦ (failure 500 "metadata_failed", g)
  | some m ↦ (metadata m, g)
]
