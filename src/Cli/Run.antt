-- ===== src/Cli/Run.antt =====
-- nexus-cli/main.go: the commands. The broker is an argument: it answers a request and goes over to
-- its next state. Where a request cannot be built it counts as not answered. The live profiles are
-- fetched one after the other here, in the order in which the goroutines of the program finish.
pub mod Laws
pub mod Matches
use nexus_framework.Prelude.{
  ℕ, String, Bool, true, false, not, ◌&&◌, ◌||◌, Option, none, some, List, [], ◌∷◌, ◌==◌, ◌=?◌,
  if◌then◌else◌, Result, ok, err,
}
use nexus_framework.Prelude.Text.{◌<>◌, trim_space}
use nexus_framework.Prelude.Maps.{Assoc, insert}
use nexus_framework.Json.{Value, obj, of_assoc}
use nexus_framework.Broker.Handler.{HttpAnswer, unreachable, answered}
use nexus_framework.Cli.Manifest.{
  Provider, Encoding, Reader, Fatal, encoded_fields, read_manifest, no_live_list, no_live_profile,
  no_confirmation,
}
use nexus_framework.Cli.Plan.{Live, Plan, text_at, make_plan, is_empty_plan}

pub record Call : Type 0 where
  pub method : String
  pub url : String
  pub key : String
  pub payload : Option Value

-- What a command is given: its environment variables, its file and flags, what the user enters, the
-- coders, and the broker.
pub record Terminal (S : Type 0) : Type 0 where
  pub env : String → Option String
  pub file : Option String
  pub prune : Bool
  pub entered : Option String
  pub reader : Reader
  pub encoding : Encoding
  pub of_json : String → Option (Assoc Value)
  pub of_json_list : String → Option (List (Assoc Value))
  pub finishing : List (Assoc Value) → List (Assoc Value)
  pub ask : Call → S → HttpAnswer × S

-- The end of a command: `applied` tells whether there were failures.
pub data End : Type 0 where
  fatal : Fatal → End
  no_changes planned cancelled : End
  applied : Bool → End

module _ {S : Type 0} (t : Terminal S) where
  abbrev pub broker_url : String
  broker_url = elim (t.env "BROKER_BASE_URL") [
    | none ↦ "http://localhost:8080"
    | some url ↦ if url == "" then "http://localhost:8080" else url
  ]

  -- The call of a method; setAPIKey sets no header for the empty key.
  abbrev pub call : String → String → Option Value → Call
  call method path payload = record {
    method = method;
    url = broker_url <> path;
    key = (elim (t.env "API_KEY") [ none ↦ "" | some k ↦ k ]);
    payload = payload;
  }

  abbrev decoded_profile : HttpAnswer → Option (Assoc Value)
  decoded_profile unreachable = none
  decoded_profile (answered status text) = if status =? 200 then t.of_json text else none

  abbrev pub decoded_list : HttpAnswer → Option (List (Assoc Value))
  decoded_list unreachable = none
  decoded_list (answered status text) = if status =? 200 then t.of_json_list text else none

  -- The profiles so far, or that a fetch has failed.
  abbrev pub add_profile : String → Option (Assoc Value) → Result Fatal Live → Result Fatal Live
  add_profile name none live = err no_live_profile
  add_profile name (some profile) (ok live) = ok (insert name profile live)
  add_profile name (some profile) (err e) = err e

  -- One item of the list; one without a name or an identifier is passed over.
  unfoldable pub fetch_item :
      Option String → Option String → Result Fatal Live → S → Result Fatal Live × S
  fetch_item (some name) (some id) live s =
      let (answer, after) = t.ask (call "GET" ("/providers/" <> id) none) s in
      (add_profile name (decoded_profile answer) live, after)
  fetch_item _ _ live s = (live, s)

  unfoldable pub fetch_items : List (Assoc Value) → Result Fatal Live → S → Result Fatal Live × S
  fetch_items [] live s = (live, s)
  fetch_items (p ∷ l) live s =
      let (next, after) = fetch_item (text_at "name" p) (text_at "id" p) live s in
      fetch_items l next after

  abbrev pub fetch_listed : Option (List (Assoc Value)) → S → Result Fatal Live × S
  fetch_listed none s = (err no_live_list, s)
  fetch_listed (some l) s = fetch_items (t.finishing l) (ok []) s

  -- The live state.
  unfoldable pub fetch_live : S → Result Fatal Live × S
  fetch_live s =
      let (answer, after) = t.ask (call "GET" "/providers" none) s in
      fetch_listed (decoded_list answer) after

  abbrev is_success : Bool → HttpAnswer → Bool
  is_success creates unreachable = false
  is_success creates (answered status text) = status =? 200 || creates && status =? 201

  -- One change: whether it has failed.
  abbrev pub change : Bool → Call → S → Bool × S
  change creates c s = let (answer, after) = t.ask c s in (not (is_success creates answer), after)

  abbrev creation : Assoc Value → Value
  creation fields = obj (of_assoc (("profile", obj (of_assoc fields)) ∷ []))

  abbrev pub create_encoded : Option (Assoc Value) → S → Bool × S
  create_encoded none s = (true, s)
  create_encoded (some fields) s = change true (call "POST" "/providers" (some (creation fields))) s

  unfoldable pub apply_creates : List Provider → S → Bool × S
  apply_creates [] s = (false, s)
  apply_creates (p ∷ ps) s =
      let (failed_here, after) = create_encoded (encoded_fields t.encoding p) s in
      let (failed_later, end) = apply_creates ps after in (failed_here || failed_later, end)

  unfoldable pub apply_updates : Assoc (Assoc Value) → S → Bool × S
  apply_updates [] s = (false, s)
  apply_updates ((id, updates) ∷ l) s =
      let (failed_here, after) =
        change false (call "PATCH" ("/providers/" <> id) (some (obj (of_assoc updates)))) s in
      let (failed_later, end) = apply_updates l after in (failed_here || failed_later, end)

  unfoldable pub apply_deletes : List String → S → Bool × S
  apply_deletes [] s = (false, s)
  apply_deletes (id ∷ l) s =
      let (failed_here, after) = change false (call "DELETE" ("/providers/" <> id) none) s in
      let (failed_later, end) = apply_deletes l after in (failed_here || failed_later, end)

  unfoldable pub apply_plan : Plan → S → End × S
  apply_plan plan s =
      let (created, s₁) = apply_creates plan.to_create s in
      let (updated, s₂) = apply_updates plan.to_update s₁ in
      let (deleted, s₃) = apply_deletes plan.to_delete s₂ in
      (applied (created || updated || deleted), s₃)

  -- The question to the user.
  abbrev pub confirmed : Option String → Plan → S → End × S
  confirmed none plan s = (fatal no_confirmation, s)
  confirmed (some line) plan s =
      if trim_space line == "yes" then apply_plan plan s else (cancelled, s)

  abbrev pub carry_out : Bool → Plan → S → End × S
  carry_out is_plan_only plan s =
      if is_empty_plan plan
      then (no_changes, s)
      else if is_plan_only
      then (planned, s)
      else confirmed t.entered plan s

  abbrev pub planned_run : Bool → Result Fatal Plan → S → End × S
  planned_run is_plan_only (err e) s = (fatal e, s)
  planned_run is_plan_only (ok plan) s = carry_out is_plan_only plan s

  abbrev pub live_run : Bool → List Provider → Result Fatal Live × S → End × S
  live_run is_plan_only manifest (err e, s) = (fatal e, s)
  live_run is_plan_only manifest (ok live, s) =
      planned_run is_plan_only (make_plan t.encoding t.prune manifest live) s

  abbrev pub manifest_run : Bool → Result Fatal (List Provider) → S → End × S
  manifest_run is_plan_only (err e) s = (fatal e, s)
  manifest_run is_plan_only (ok manifest) s = live_run is_plan_only manifest (fetch_live s)

  -- runCommand
  unfoldable pub run_command : Bool → S → End × S
  run_command is_plan_only s = manifest_run is_plan_only (read_manifest t.reader t.env t.file) s

-- main, on the first argument
pub data Command : Type 0 where
  usage unknown : Command
  ended : End → Command

abbrev ended_by : {S : Type 0} → End × S → Command × S
ended_by (end, s) = (ended end, s)

unfoldable pub main : {S : Type 0} → Terminal S → Option String → S → Command × S
main t none s = (usage, s)
main t (some name) s =
    if name == "plan"
    then ended_by (run_command t true s)
    else if name == "apply"
    then ended_by (run_command t false s)
    else (unknown, s)
