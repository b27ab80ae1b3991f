-- ===== src/Broker/Audit.antt =====
-- nexus-broker/pkg/handlers/audit.go: the listing of audit events.
pub mod Log
use nexus_framework.Prelude.{
  ℕ, zero, suc, String, Bool, true, ◌&&◌, Option, none, some, List, [], ◌∷◌, ◌==◌, if◌then◌else◌,
  Result, ok, err,
}
use nexus_framework.Prelude.Int.{ℤ, pos, leb_ℤ, ltb_ℤ}
use nexus_framework.Broker.Db.{AuditEvent}

-- An event and the time of its row.
abbrev pub Dated : Type 0
Dated = AuditEvent × ℤ

-- The limit: 50, or a number from 1 to 1000 that the request gives.
unfoldable pub limit_of : (String → Option ℤ) → String → ℤ
limit_of atoi text = elim (atoi text) [
  | none ↦ pos 50
  | some n ↦ if ltb_ℤ (pos 0) n && leb_ℤ n (pos 1000) then n else pos 50
]

abbrev is_since : Option ℤ → ℤ → Bool
is_since none at = true
is_since (some since) at = leb_ℤ since at

-- The conditions of the query, on rows with the newest first.
unfoldable pub matching : String → Option ℤ → List Dated → List Dated
matching kind since [] = []
matching kind since ((e, at) ∷ l) =
    let rest = matching kind since l in
    if (if kind == "" then true else e.event_type == kind) && is_since since at
    then (e, at) ∷ rest
    else rest

unfoldable pub first_rows : ℕ → List Dated → List Dated
first_rows zero l = []
first_rows (suc n) [] = []
first_rows (suc n) (r ∷ l) = r ∷ first_rows n l

abbrev since_of : (String → Option ℤ) → String → Result (ℕ × String) (Option ℤ)
since_of parse_time text =
    if text == ""
    then ok none
    else (elim (parse_time text) [ none ↦ err (400, "invalid_since") | some at ↦ ok (some at) ])

abbrev limited : ℤ → List Dated → List Dated
limited (pos n) l = first_rows n l
limited _ l = []

abbrev listed_rows :
    Bool
    → String
    → ℤ
    → List Dated
    → Result (ℕ × String) (Option ℤ)
    → Result (ℕ × String) (List Dated)
listed_rows fails kind limit rows (err e) = err e
listed_rows fails kind limit rows (ok since) =
    if fails then err (500, "query_failed") else ok (limited limit (matching kind since rows))

-- List: the status and the code of an error, or the rows
unfoldable pub list_audit :
    (String → Option ℤ)
    → (String → Option ℤ)
    → Bool
    → String
    → String
    → String
    → List Dated
    → Result (ℕ × String) (List Dated)
list_audit atoi parse_time fails kind since limit rows =
    listed_rows fails kind (limit_of atoi limit) rows (since_of parse_time since)
