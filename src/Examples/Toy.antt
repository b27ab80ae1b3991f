-- ===== src/Examples/Toy.antt =====
-- A small outside for the broker, with its laws.
use Prim.Native.Char.{code}
use text.Mathlib.TextEquality.{Char-path}
use nexus_framework.Prelude.{
  String, ◌≡◌, refl, ap, sym, true, false, Option, none, some, [], ◌∷◌, ◌==◌, ◌=?◌, ◌&&◌,
  if◌then◌else◌, eq_iff, arith, Bool-cases, inl, inr,
}
use nexus_framework.Prelude.Maps.{Assoc}
use nexus_framework.Prelude.Int.{pos, ◌=ℤ◌}
use nexus_framework.Json.{Value, str}
use nexus_framework.Broker.State.{StateData, Codec}
use nexus_framework.Broker.State.Laws.{HasNoDot, IsLawful}
use nexus_framework.Broker.ReturnUrl.{Urls}
use nexus_framework.Broker.Db.{Connection, Provider, Faults}
use nexus_framework.Broker.Handler.{answered, World, Config, Outside}
use nexus_framework.Broker.Token.RoundTrip.{Reads}

-- Each character is doubled, so that a dot can be written without one.
abbrev escape : String → String
escape String.[] = ""
escape (String.◌∷◌ c s) =
    if code c =? b'.'
    then String.◌∷◌ "b" (String.◌∷◌ "x" (escape s))
    else String.◌∷◌ "a" (String.◌∷◌ c (escape s))

abbrev unescape : String → String
unescape String.[] = ""
unescape (String.◌∷◌ c String.[]) = ""
unescape (String.◌∷◌ t (String.◌∷◌ c s)) =
    String.◌∷◌ (if code t =? b'a' then c else ".") (unescape s)

unescape-escape : (s : String) → unescape (escape s) ≡ s
unescape-escape String.[] = refl
unescape-escape (String.◌∷◌ c s) = elim (Bool-cases (code c =? b'.')) [
  | inl dot ↦
      let same : code c ≡ b'.' = ground (arith, dot) in
      rw (dot, unescape-escape s) (ap (λ x. String.◌∷◌ x s) (sym (Char-path c "." same)))
  | inr other ↦ rw (other, unescape-escape s) refl
]

escape-HasNoDot : (s : String) → HasNoDot (escape s)
escape-HasNoDot String.[] = tt
escape-HasNoDot (String.◌∷◌ c s) = elim (Bool-cases (code c =? b'.')) [
  | inl dot ↦ rw dot (ground arith, (ground arith, escape-HasNoDot s))
  | inr other ↦ rw other (ground arith, (ground (arith, other), escape-HasNoDot s))
]

-- The data of a state are its nonce, the rest is fixed.
abbrev pub toy_data : String → StateData
toy_data nonce = record { workspace_id = "w"; provider_id = "p"; nonce = nonce; iat = pos 0 }

abbrev toy_marshal : StateData → Option String
toy_marshal d =
    if d.workspace_id == "w" && d.provider_id == "p" && d.iat =ℤ pos 0 then some d.nonce else none

abbrev pub toy_codec : Codec
toy_codec = record {
  marshal = toy_marshal;
  unmarshal = λ s. some (toy_data s);
  encode = escape;
  decode = λ s. some (unescape s);
  mac = λ key s. "sig";
}

toy_marshal_sound : (d : StateData) (s : String) → toy_marshal d ≡ some s → d ≡ toy_data s
toy_marshal_sound d s h =
    let w : d.workspace_id ≡ "w" = (eq_iff d.workspace_id "w").0 (ground arith) in
    let p : d.provider_id ≡ "p" = (eq_iff d.provider_id "p").0 (ground arith) in
    let i : d.iat ≡ pos 0 = ground arith in let n : d.nonce ≡ s = ground arith in cc (w, p, i, n)

pub toy_codec-IsLawful : IsLawful toy_codec
toy_codec-IsLawful = record {
  unmarshal-marshal = λ d s h. ap some (sym (toy_marshal_sound d s h));
  decode-encode = λ s. ap some (unescape-escape s);
  encode-HasNoDot = escape-HasNoDot;
}

-- JSON of one text field.
abbrev toy_to_json : Assoc Value → Option String
toy_to_json ((k, str v) ∷ []) = if k == "access_token" then some v else none
toy_to_json _ = none

abbrev pub toy_urls : Urls
toy_urls = record { host_of = λ url. some "app.example.com"; split_host_port = λ host. none }

abbrev pub toy_outside : Outside
toy_outside = record {
  codec = toy_codec;
  urls = toy_urls;
  now = pos 3;
  parse_uuid = λ s. if s == "n1" then some 1 else none;
  uuid_text = λ n. "n1";
  to_json = toy_to_json;
  of_json = λ s. some (("access_token", str s) ∷ []);
  seal = λ key s. some s;
  unseal = λ key s. some s;
  base64 = λ s. s;
  rfc3339 = λ t. "later";
  send = λ request. answered 200 "secret";
  discover = λ url. none;
  verify_id_token = λ raw client nonce. true;
  with_query = λ url q. some url;
}

toy_json_law :
    (t : Assoc Value) (text : String)
    → toy_to_json t ≡ some text
    → some (("access_token", str text) ∷ []) ≡ some t
toy_json_law [] text h = absurd (cc h)
toy_json_law ((k, str v) ∷ []) text h =
    let key : k ≡ "access_token" = (eq_iff k "access_token").0 (ground arith) in
    let same : v ≡ text = ground arith in rw (key, same) refl
toy_json_law _ text h = absurd (cc h)

pub toy_outside-Reads : Reads toy_outside toy_outside
toy_outside-Reads = record {
  unseal-seal = λ key text sealed h. sym h;
  of_json-to_json = toy_json_law;
}

abbrev pub toy_config : Config
toy_config = record {
  base_url = "https://broker.example.com/";
  redirect_path = "/auth/callback";
  encryption_key = "0123456789abcdef0123456789abcdef";
  state_key = "key";
  enforce_return_url = true;
  allowed_return_domains = "*.example.com" ∷ [];
  audit = true;
}

abbrev pub no_faults : Faults
no_faults s = false

abbrev pub waiting : Connection
waiting = record {
  id = 1;
  workspace_id = "w";
  provider_id = 5;
  status = "pending";
  code_verifier = some "v";
  scopes = "email" ∷ [];
  return_url = "https://app.example.com/done";
  expires_at = pos 10;
}

abbrev pub toy_provider : Provider
toy_provider = record {
  id = 5;
  name = "acme";
  auth_type = "oauth2";
  auth_url = some "https://acme.example.com/auth";
  token_url = some "https://acme.example.com/token";
  client_id = some "client";
  client_secret = some "secret";
  auth_header = none;
  api_base_url = none;
  user_info_endpoint = none;
  params = none;
}

abbrev pub toy_world : World
toy_world = record {
  db = record {
    connections = waiting ∷ [];
    providers = toy_provider ∷ [];
    tokens = [];
    audit_events = [];
  };
  metrics = record {
    exchange_success = 0;
    exchange_error = 0;
    id_tokens = 0;
    token_gets = [];
    consents = 0;
    consents_openid = 0;
  };
}
