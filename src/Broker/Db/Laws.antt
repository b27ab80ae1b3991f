-- ===== src/Broker/Db/Laws.antt =====
-- nexus-broker/migrations and pkg/handlers: the laws of the table operations.
use nexus_framework.Prelude.{
  ℕ, String, ◌≡◌, ◌≢◌, refl, none, some, List, [], ◌∷◌, ◌=?◌, if◌then◌else◌, arith,
}
use nexus_framework.Broker.Db.{
  Connection, TokenRow, find_connection, find_token, upsert_token_row, set_status, has_connection,
  keep_owned,
}

-- The upserted row is found under its connection, and every other connection keeps its row.
pub find_token-upsert_token_row :
    (id : ℕ) (row : TokenRow) (l : List TokenRow)
    → find_token id (upsert_token_row row l)
      ≡ (if row.connection_id =? id then some row else find_token id l)
unfolding find_token upsert_token_row
find_token-upsert_token_row id row [] = refl
find_token-upsert_token_row id row (t ∷ l) = ground (arith, find_token-upsert_token_row id row l)

-- No two rows of tokens have the same connection.
abbrev pub IsFresh : ℕ → List TokenRow → Type 0
IsFresh id [] = Unit
IsFresh id (t ∷ l) = (t.connection_id ≢ id) × IsFresh id l

abbrev pub IsUnique : List TokenRow → Type 0
IsUnique [] = Unit
IsUnique (t ∷ l) = IsFresh t.connection_id l × IsUnique l

IsFresh-upsert_token_row :
    (id : ℕ) (row : TokenRow) (l : List TokenRow)
    → row.connection_id ≢ id
    → IsFresh id l
    → IsFresh id (upsert_token_row row l)
unfolding upsert_token_row
IsFresh-upsert_token_row id row [] h f = (h, tt)
IsFresh-upsert_token_row id row (t ∷ l) h f = ground (arith, IsFresh-upsert_token_row id row l)

IsFresh-same : (a b : ℕ) (l : List TokenRow) → a ≡ b → IsFresh a l → IsFresh b l
IsFresh-same a b [] e h = tt
IsFresh-same a b (t ∷ l) e (h, hs) = (omega arith, IsFresh-same a b l e hs)

pub IsUnique-upsert_token_row :
    (row : TokenRow) (l : List TokenRow) → IsUnique l → IsUnique (upsert_token_row row l)
unfolding upsert_token_row
IsUnique-upsert_token_row row [] h = (tt, tt)
IsUnique-upsert_token_row row (t ∷ l) (f, h) = ground (
  arith,
  IsFresh-same t.connection_id row.connection_id l,
  IsFresh-upsert_token_row t.connection_id row l,
  IsUnique-upsert_token_row row l,
)

-- A status update is seen under its connection and changes no other connection.
pub find_connection-set_status :
    (id j : ℕ) (status : String) (l : List Connection)
    → find_connection j (set_status id status l) ≡ (elim (find_connection j l) [
      | none ↦ none
      | some c ↦ some (if id =? j then record c { status = status } else c)
    ])
unfolding find_connection set_status
find_connection-set_status id j status [] = refl
find_connection-set_status id j status (c ∷ l) =
    ground (arith, find_connection-set_status id j status l)

-- After the cleanup a connection's token is there exactly if it was, and the connection exists.
pub find_token-keep_owned :
    (cs : List Connection) (id : ℕ) (l : List TokenRow)
    → find_token id (keep_owned cs l) ≡ (if has_connection cs id then find_token id l else none)
unfolding find_token keep_owned
find_token-keep_owned cs id [] = ground arith
find_token-keep_owned cs id (t ∷ l) = ground (arith, find_token-keep_owned cs id l)
