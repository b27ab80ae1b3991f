-- ===== src/Broker/Db/Cleanup.antt =====
-- nexus-broker/pkg/handlers/cleanup.go: the loop that deletes tokens without a connection. What its
-- select receives is a list; the connections do not change meanwhile.
use nexus_framework.Prelude.{
  Bool, true, false, ◌≡◌, refl, ap, ◌∙◌, List, [], ◌∷◌, if◌then◌else◌, inl, inr, Bool-cases,
}
use nexus_framework.Broker.Db.{Connection, TokenRow, has_connection, keep_owned}

-- A tick, with whether the statement fails, or the end of the context.
pub data CleanupEvent : Type 0 where
  tick : Bool → CleanupEvent
  context_done : CleanupEvent

-- StartOrphanTokenCleanup: the rows of tokens, and whether the loop still runs.
unfoldable pub orphan_cleanup :
    List CleanupEvent → List Connection → List TokenRow → List TokenRow × Bool
orphan_cleanup [] cs rows = (rows, true)
orphan_cleanup (context_done ∷ events) cs rows = (rows, false)
orphan_cleanup (tick fails ∷ events) cs rows =
    orphan_cleanup events cs (if fails then rows else keep_owned cs rows)

-- Whether a statement succeeds before the context ends.
abbrev has_cleaned : List CleanupEvent → Bool
has_cleaned [] = false
has_cleaned (context_done ∷ events) = false
has_cleaned (tick true ∷ events) = has_cleaned events
has_cleaned (tick false ∷ events) = true

keep_owned_again :
    (cs : List Connection) (rows : List TokenRow)
    → keep_owned cs (keep_owned cs rows) ≡ keep_owned cs rows
unfolding keep_owned
keep_owned_again cs [] = refl
keep_owned_again cs (t ∷ rows) = elim (Bool-cases (has_connection cs t.connection_id)) [
  | inl owned ↦ rw owned (rw owned (ap (λ l. t ∷ l) (keep_owned_again cs rows)))
  | inr orphan ↦ rw orphan (keep_owned_again cs rows)
]

cleaned_stays :
    (events : List CleanupEvent) (cs : List Connection) (rows : List TokenRow)
    → keep_owned cs rows ≡ rows
    → (orphan_cleanup events cs rows).0 ≡ rows
unfolding orphan_cleanup
cleaned_stays [] cs rows h = refl
cleaned_stays (context_done ∷ events) cs rows h = refl
cleaned_stays (tick true ∷ events) cs rows h = cleaned_stays events cs rows h
cleaned_stays (tick false ∷ events) cs rows h =
    ap (λ l. (orphan_cleanup events cs l).0) h ∙ cleaned_stays events cs rows h

-- However many ticks there are and whichever fail, the loop deletes what one statement does, if one
-- succeeds, and nothing otherwise.
pub orphan_cleanup-keep_owned :
    (events : List CleanupEvent) (cs : List Connection) (rows : List TokenRow)
    → (orphan_cleanup events cs rows).0 ≡ (if has_cleaned events then keep_owned cs rows else rows)
unfolding orphan_cleanup
orphan_cleanup-keep_owned [] cs rows = refl
orphan_cleanup-keep_owned (context_done ∷ events) cs rows = refl
orphan_cleanup-keep_owned (tick true ∷ events) cs rows = orphan_cleanup-keep_owned events cs rows
orphan_cleanup-keep_owned (tick false ∷ events) cs rows =
    cleaned_stays events cs (keep_owned cs rows) (keep_owned_again cs rows)
