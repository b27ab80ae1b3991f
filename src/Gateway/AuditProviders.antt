-- ===== src/Gateway/AuditProviders.antt =====
-- nexus-gateway/cmd/audit-providers/main.go: the report on the registered OAuth 2 providers. The
-- gateway is an argument; a row has no scopes and no texts of servers.
use nexus_framework.Prelude.{
  ℕ, suc, String, Bool, true, false, Option, none, some, List, [], ◌∷◌, ◌==◌, ◌=?◌, if◌then◌else◌,
  ◌≡◌, ◌≢◌, inl, inr, arith, Bool-cases, Option-cases, eq_iff,
}
use nexus_framework.Prelude.Maps.{Assoc}
use nexus_framework.Broker.Handler.{HttpAnswer, unreachable, answered}

pub data AuditStatus : Type 0 where
  pass warn fail : AuditStatus

pub data SmokeTest : Type 0 where
  auth_url_generated generated_without_scopes network_error invalid_json : SmokeTest
  http_status : ℕ → SmokeTest

pub record ReportRow : Type 0 where
  pub provider_name : String
  pub status : AuditStatus
  pub scope_count : ℕ
  pub result : SmokeTest

pub record ConnectionRequest : Type 0 where
  pub user_id : String
  pub provider_name : String
  pub scopes : List String
  pub return_url : String

abbrev count : List String → ℕ
count [] = 0
count (x ∷ l) = suc (count l)

abbrev has_no_scopes : List String → Bool
has_no_scopes [] = true
has_no_scopes (x ∷ l) = false

abbrev scopes_to_use : List String → List String
scopes_to_use [] = "openid" ∷ []
scopes_to_use (x ∷ l) = x ∷ l

-- The authorization URL of a body, if the body decodes.
abbrev judged_url : Bool → Option String → AuditStatus × SmokeTest
judged_url unscoped none = (fail, invalid_json)
judged_url unscoped (some auth_url) =
    if auth_url == ""
    then (fail, invalid_json)
    else if unscoped
    then (warn, generated_without_scopes)
    else (pass, auth_url_generated)

-- The status of a row and its result.
unfoldable pub judge_answer : (String → Option String) → Bool → HttpAnswer → AuditStatus × SmokeTest
judge_answer auth_url_of unscoped unreachable = (fail, network_error)
judge_answer auth_url_of unscoped (answered status text) =
    if status =? 200 then judged_url unscoped (auth_url_of text) else (fail, http_status status)

abbrev audit_row :
    (ConnectionRequest → HttpAnswer) → (String → Option String) → String → List String → ReportRow
audit_row post auth_url_of name scopes =
    let request : ConnectionRequest = record {
      user_id = "audit-bot";
      provider_name = name;
      scopes = scopes_to_use scopes;
      return_url = "https://example.com/callback";
    } in
    let (status, result) = judge_answer auth_url_of (has_no_scopes scopes) (post request) in
    record { provider_name = name; status = status; scope_count = count scopes; result = result }

-- The loop of main, on the scopes of the providers by name, in the order of the names.
unfoldable pub audit_rows :
    (ConnectionRequest → HttpAnswer)
    → (String → Option String)
    → Assoc (List String)
    → List ReportRow
audit_rows post auth_url_of [] = []
audit_rows post auth_url_of ((name, scopes) ∷ l) =
    let rest = audit_rows post auth_url_of l in
    if name == "" then rest else audit_row post auth_url_of name scopes ∷ rest

-- A row passes only if the gateway has answered 200 with a URL and the provider has scopes.
pub judge_answer_passes :
    (auth_url_of : String → Option String) (unscoped : Bool) (answer : HttpAnswer)
    → (judge_answer auth_url_of unscoped answer).0 ≡ pass
    → (unscoped ≡ false)
      × (text : String) × (url : String) × (answer ≡ answered 200 text)
      × (auth_url_of text ≡ some url)
      × (url ≢ "")
unfolding judge_answer
judge_answer_passes auth_url_of unscoped unreachable e = absurd (ground arith)
judge_answer_passes auth_url_of unscoped (answered status text) e =
    elim (Bool-cases (status =? 200)) [
      | inr other ↦ absurd (ground arith)
      | inl good ↦ elim (Option-cases (auth_url_of text)) [
        | inl fails ↦ absurd (ground arith)
        | inr (url, decodes) ↦ (
          ground (arith, eq_iff url ""),
          text,
          url,
          ground arith,
          decodes,
          (λ blank. absurd (ground (arith, eq_iff url ""))),
        )
      ]
    ]
