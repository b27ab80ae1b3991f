-- ===== src/Gateway/FromBroker.antt =====
-- nexus-gateway/pkg/broker/client.gen.go: how the generated client reads the broker's answers to
-- GetSpec and GetToken. Neither of them redirects.
use nexus_framework.Prelude.{String, Option, none, some, List, [], ◌∷◌, ◌=?◌, if◌then◌else◌}
use nexus_framework.Prelude.Maps.{Assoc, lookup}
use nexus_framework.Json.{Value, Items, str, obj, arr, no_item, item, of_assoc}
use nexus_framework.Broker.Handler.{Response, error, json, redirect, dropped}
use nexus_framework.Gateway.Answers.{BrokerAnswer, unavailable, replied}
use nexus_framework.Gateway.Connect.{Spec}

-- A field of type *string, where the broker writes a text or null.
abbrev pub text_field : Option Value → Option String
text_field (some (str s)) = some s
text_field _ = none

abbrev pub texts : Items → List String
texts no_item = []
texts (item (str s) more) = s ∷ texts more
texts (item _ more) = "" ∷ texts more

abbrev pub texts_field : Option Value → Option (List String)
texts_field (some (arr items)) = some (texts items)
texts_field _ = none

unfoldable pub spec_of : Assoc Value → Spec
spec_of fields = record {
  auth_url = text_field (lookup "authUrl" fields);
  state = text_field (lookup "state" fields);
  scopes = texts_field (lookup "scopes" fields);
  provider_id = text_field (lookup "provider_id" fields);
}

-- ParsePostAuthConsentSpecResponse
unfoldable pub spec_reply : Response → BrokerAnswer Spec
spec_reply (error status _) = replied status none
spec_reply (json status fields) =
    if status =? 200 then replied status (some (spec_of fields)) else replied status none
spec_reply (redirect _) = replied 302 none
spec_reply dropped = unavailable

-- ParseGetConnectionsConnectionIDTokenResponse
unfoldable pub token_reply : Response → BrokerAnswer Value
token_reply (error status _) = replied status none
token_reply (json status fields) =
    if status =? 200 then replied status (some (obj (of_assoc fields))) else replied status none
token_reply (redirect _) = replied 302 none
token_reply dropped = unavailable
