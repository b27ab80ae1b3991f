-- ===== src/Broker/Audit/Log.antt =====
-- nexus-broker/internal/audit/service.go: the row of an audit event. The encoder of the event's data
-- and package net are arguments; the address is stored as text.
use nexus_framework.Prelude.{
  ℕ, String, Bool, ◌≡◌, sym, ◌∙◌, ap, inl, inr, Option, none, some, List, [], ◌∷◌, ◌==◌,
  if◌then◌else◌, Result, ok, err, arith, Option-cases, Bool-cases,
}
use nexus_framework.Prelude.Text.{split, trim_space}
use nexus_framework.Prelude.Maps.{Assoc}
use nexus_framework.Json.{Value}
use nexus_framework.Broker.Access.{Net}

pub record AuditRequest : Type 0 where
  pub forwarded : String
  pub remote : String
  pub user_agent : String

pub record AuditRow : Type 0 where
  pub connection : Option ℕ
  pub kind : String
  pub data_text : Option String
  pub ip_address : Option String
  pub agent : Option String

-- The statement and the encoder may fail.
pub data LogError : Type 0 where
  not_encoded not_inserted : LogError

abbrev valid_address : Net → Option String → Option String
valid_address net none = none
valid_address net (some ip) = elim (net.parse_ip ip) [ none ↦ none | some n ↦ some ip ]

abbrev first_entry : List String → Option String
first_entry [] = none
first_entry (entry ∷ l) = some (trim_space entry)

-- The address of a request: of the header, or of the connection where there is no header.
unfoldable pub logged_address : Net → AuditRequest → Option String
logged_address net r =
    if r.forwarded == ""
    then valid_address net (net.split_host_port r.remote)
    else valid_address net (first_entry (split b',' r.forwarded))

abbrev address_of : Net → Option AuditRequest → Option String
address_of net none = none
address_of net (some r) = logged_address net r

abbrev agent_of : Option AuditRequest → Option String
agent_of none = none
agent_of (some r) = if r.user_agent == "" then none else some r.user_agent

-- A value of the event's data is encoded where there is one, and empty text is NULL.
abbrev encoded_data :
    (Assoc Value → Option String) → Option (Assoc Value) → Result LogError (Option String)
encoded_data to_json none = ok none
encoded_data to_json (some fields) = elim (to_json fields) [
  | none ↦ err not_encoded
  | some text ↦ ok (if text == "" then none else some text)
]

abbrev inserted :
    Bool
    → (Option String → AuditRow)
    → Result LogError (Option String)
    → List AuditRow
    → Result LogError (Unit {0}) × List AuditRow
inserted fails row (err e) rows = (err e, rows)
inserted fails row (ok text) rows =
    if fails then (err not_inserted, rows) else (ok tt, row text ∷ rows)

-- Log, on rows with the newest first
unfoldable pub log_event :
    Net
    → (Assoc Value → Option String)
    → Bool
    → String
    → Option ℕ
    → Option (Assoc Value)
    → Option AuditRequest
    → List AuditRow
    → Result LogError (Unit {0}) × List AuditRow
log_event net to_json fails kind connection fields r rows =
    inserted fails
      (λ text. record {
        connection = connection;
        kind = kind;
        data_text = text;
        ip_address = address_of net r;
        agent = agent_of r;
      })
      (encoded_data to_json fields) rows

valid_address-parse_ip :
    (net : Net) (o : Option String) (ip : String)
    → valid_address net o ≡ some ip
    → (n : ℕ) × (net.parse_ip ip ≡ some n)
valid_address-parse_ip net none ip e = absurd (ground arith)
valid_address-parse_ip net (some text) ip e = elim (Option-cases (net.parse_ip text)) [
  | inl bad ↦ absurd (ground arith)
  | inr (n, good) ↦ let same : text ≡ ip = ground arith in (n, sym (ap net.parse_ip same) ∙ good)
]

-- A stored address is one that net.ParseIP takes.
pub logged_address-parse_ip :
    (net : Net) (r : AuditRequest) (ip : String)
    → logged_address net r ≡ some ip
    → (n : ℕ) × (net.parse_ip ip ≡ some n)
unfolding logged_address
logged_address-parse_ip net r ip e = elim (Bool-cases (r.forwarded == "")) [
  | inl direct ↦ valid_address-parse_ip net (net.split_host_port r.remote) ip (ground arith)
  | inr through ↦
      valid_address-parse_ip net (first_entry (split b',' r.forwarded)) ip (ground arith)
]
