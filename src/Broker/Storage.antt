-- ===== src/Broker/Storage.antt =====
-- nexus-broker/pkg/storage/pg.go: the methods of the storage package, which no handler calls, on the
-- tables of the handlers. A statement may fail; the database draws the identifiers.
use nexus_framework.Prelude.{
  ℕ, String, Bool, true, false, Option, none, some, List, [], ◌∷◌, ◌++◌, if◌then◌else◌, Result, ok,
  err, ◌≡◌, refl, ◌∙◌, arith,
}
use nexus_framework.Prelude.Int.{ℤ, ltb_ℤ}
use nexus_framework.Broker.Db.{
  Connection, Provider, TokenRow, AuditEvent, Db, find_connection, find_provider, find_token,
  pending_connection, set_status, upsert_token_row,
}
use nexus_framework.Broker.Db.Laws.{find_token-upsert_token_row}

-- A row that is not there, with its message, or another error.
pub data StorageError : Type 0 where
  row_not_found query_failed : StorageError

abbrev change : {A : Type 0} → Bool → A → Db → Db → Result StorageError A × Db
change fails a after db = if fails then (err query_failed, db) else (ok a, after)

abbrev selected : {A : Type 0} → Bool → Option A → Result StorageError A
selected fails found =
    if fails then err query_failed else (elim found [ none ↦ err row_not_found | some a ↦ ok a ])

-- CreateProviderProfile
unfoldable pub create_provider_profile : Bool → ℕ → Provider → Db → Result StorageError ℕ × Db
create_provider_profile fails id p db =
    change fails id (record db { providers = db.providers ++ record p { id = id } ∷ [] }) db

-- GetProviderProfile
unfoldable pub get_provider_profile : Bool → ℕ → Db → Result StorageError Provider
get_provider_profile fails id db = selected fails (find_provider id db.providers)

-- CreateConnection: the status is the column's default.
unfoldable pub insert_pending : Bool → ℕ → Connection → Db → Result StorageError ℕ × Db
insert_pending fails id c db =
    let row = record c { id = id; status = "pending" } in
    change fails id (record db { connections = db.connections ++ row ∷ [] }) db

-- GetConnection
unfoldable pub get_connection : Bool → ℤ → ℕ → Db → Result StorageError Connection
get_connection fails now id db = selected fails (pending_connection now id db.connections)

-- UpdateConnectionStatus; a missing row is no error.
unfoldable pub write_connection_status :
    Bool → ℕ → String → Db → Result StorageError (Unit {0}) × Db
write_connection_status fails id status db =
    change fails tt (record db { connections = set_status id status db.connections }) db

-- CreateToken
unfoldable pub create_token : Bool → TokenRow → Db → Result StorageError (Unit {0}) × Db
create_token fails row db =
    change fails tt (record db { tokens = upsert_token_row row db.tokens }) db

-- CreateAuditEvent
unfoldable pub create_audit_event : Bool → AuditEvent → Db → Result StorageError (Unit {0}) × Db
create_audit_event fails e db =
    change fails tt (record db { audit_events = db.audit_events ++ e ∷ [] }) db

find_connection_last :
    (l : List Connection) (c : Connection)
    → find_connection c.id l ≡ none
    → find_connection c.id (l ++ c ∷ []) ≡ some c
unfolding find_connection
find_connection_last [] c h = ground arith
find_connection_last (d ∷ l) c h = ground (arith, find_connection_last l c)

-- A connection with a fresh identifier is read back as pending while it has not expired.
pub get_connection-insert_pending :
    (id : ℕ) (now : ℤ) (c : Connection) (db : Db)
    → find_connection id db.connections ≡ none
    → ltb_ℤ now c.expires_at ≡ true
    → get_connection false now id (insert_pending false id c db).1
      ≡ ok (record c { id = id; status = "pending" })
unfolding get_connection insert_pending pending_connection
get_connection-insert_pending id now c db fresh valid =
    rw (find_connection_last db.connections (record c { id = id; status = "pending" }) fresh)
      (rw valid refl)

-- A created token is the one that is found under its connection.
pub find_token-create_token :
    (row : TokenRow) (db : Db)
    → find_token row.connection_id ((create_token false row db).1).tokens ≡ some row
unfolding create_token
find_token-create_token row db =
    find_token-upsert_token_row row.connection_id row db.tokens ∙ ground arith
