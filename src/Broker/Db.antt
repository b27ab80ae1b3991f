-- ===== src/Broker/Db.antt =====
-- nexus-broker/migrations and the SQL statements of pkg/handlers: the tables of connections, tokens
-- and audit events, with the columns that the handlers read and write. Any statement may fail.
pub mod Laws
pub mod Cleanup
use nexus_framework.Prelude.{
  ℕ, String, Bool, true, false, ◌&&◌, Option, none, some, List, [], ◌∷◌, ◌++◌, ◌==◌, ◌=?◌,
  if◌then◌else◌,
}
use nexus_framework.Prelude.Maps.{Assoc}
use nexus_framework.Prelude.Int.{ℤ, ltb_ℤ}
use nexus_framework.Json.{Value}

-- A row of connections. Identifiers are UUIDs, as numbers; times are nanoseconds.
pub record Connection : Type 0 where
  pub id : ℕ
  pub workspace_id : String
  pub provider_id : ℕ
  pub status : String
  pub code_verifier : Option String
  pub scopes : List String
  pub return_url : String
  pub expires_at : ℤ

-- A row of provider_profiles, as far as the handlers of the flow read it. `params` is the decoded
-- JSON of the column: `none` is NULL, and `some none` is text that does not decode to an object.
pub record Provider : Type 0 where
  pub id : ℕ
  pub name : String
  pub auth_type : String
  pub auth_url : Option String
  pub token_url : Option String
  pub client_id : Option String
  pub client_secret : Option String
  pub auth_header : Option String
  pub api_base_url : Option String
  pub user_info_endpoint : Option String
  pub params : Option (Option (Assoc Value))

-- A row of tokens; connection_id is unique there.
pub record TokenRow : Type 0 where
  pub connection_id : ℕ
  pub encrypted_data : String
  pub expires_at : Option ℤ

pub record AuditEvent : Type 0 where
  pub connection_id : Option ℕ
  pub event_type : String
  pub event_data : Assoc String

pub record Db : Type 0 where
  pub connections : List Connection
  pub providers : List Provider
  pub tokens : List TokenRow
  pub audit_events : List AuditEvent

-- The statements that the handlers run, for the faults of the database.
pub data Statement : Type 0 where
  select_pending select_connection select_provider select_joined select_active select_token
        upsert_token update_status insert_connection insert_audit delete_orphans :
      Statement

abbrev pub Faults : Type 0
Faults = Statement → Bool

unfoldable pub find_connection : ℕ → List Connection → Option Connection
find_connection id [] = none
find_connection id (c ∷ l) = if c.id =? id then some c else find_connection id l

unfoldable pub find_provider : ℕ → List Provider → Option Provider
find_provider id [] = none
find_provider id (p ∷ l) = if p.id =? id then some p else find_provider id l

unfoldable pub find_token : ℕ → List TokenRow → Option TokenRow
find_token id [] = none
find_token id (t ∷ l) = if t.connection_id =? id then some t else find_token id l

-- INSERT ... ON CONFLICT (connection_id) DO UPDATE
unfoldable pub upsert_token_row : TokenRow → List TokenRow → List TokenRow
upsert_token_row row [] = row ∷ []
upsert_token_row row (t ∷ l) =
    if t.connection_id =? row.connection_id then row ∷ l else t ∷ upsert_token_row row l

-- UPDATE connections SET status = $1 WHERE id = $2
unfoldable pub set_status : ℕ → String → List Connection → List Connection
set_status id status [] = []
set_status id status (c ∷ l) =
    (if c.id =? id then record c { status = status } else c) ∷ set_status id status l

-- DELETE FROM tokens t WHERE NOT EXISTS (a connection with its id)
unfoldable pub has_connection : List Connection → ℕ → Bool
has_connection l id = elim (find_connection id l) [ none ↦ false | some _ ↦ true ]

unfoldable pub keep_owned : List Connection → List TokenRow → List TokenRow
keep_owned cs [] = []
keep_owned cs (t ∷ l) =
    let rest = keep_owned cs l in if has_connection cs t.connection_id then t ∷ rest else rest

-- The pending connection of the callback: WHERE status = 'pending' AND expires_at > NOW()
unfoldable pub pending_connection : ℤ → ℕ → List Connection → Option Connection
pending_connection now id l = elim (find_connection id l) [
  | none ↦ none
  | some c ↦ if c.status == "pending" && ltb_ℤ now c.expires_at then some c else none
]

-- The query of a statement, which finds nothing where the database fails.
abbrev pub query {ℓ} : {A : Type ℓ} → Faults → Statement → Option A → Option A
query faults s found = if faults s then none else found

abbrev pub paired : Connection → Option Provider → Option (Connection × Provider)
paired c none = none
paired c (some p) = some (c, p)

-- A connection JOIN its provider
unfoldable pub joined : ℕ → Db → Option (Connection × Provider)
joined id db = elim (find_connection id db.connections) [
  | none ↦ none
  | some c ↦ paired c (find_provider c.provider_id db.providers)
]

-- The same, WHERE c.status = 'active'
unfoldable pub joined_active : ℕ → Db → Option (Connection × Provider)
joined_active id db = elim (joined id db) [
  | none ↦ none
  | some row ↦ if (row.0).status == "active" then some row else none
]
