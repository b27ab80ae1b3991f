-- ===== src/Sdk/Create.antt =====
-- nexus-sdk/client.go: New and its options. The HTTP client and the logger are no part of the model,
-- and no call uses the broker's URL and key.
use nexus_framework.Prelude.{String, Result, false, ◌≡◌, refl, List, [], ◌∷◌, ◌++◌}
use nexus_framework.Prelude.Text.{trim_right_char}
use nexus_framework.Prelude.Maps.{Assoc}
use nexus_framework.Prelude.Int.{pos}
use nexus_framework.Json.{Value}
use nexus_framework.Sdk.{RetryPolicy, Client, Network, SdkError, refresh_connection}

pub data ClientOption : Type 0 where
  with_http_client with_logger : ClientOption
  with_broker : String → String → ClientOption
  with_retry : RetryPolicy → ClientOption

unfoldable pub apply_option : Client → ClientOption → Client
apply_option c with_http_client = c
apply_option c with_logger = c
apply_option c (with_broker url key) = c
apply_option c (with_retry p) = record c { retry_policy = p }

unfoldable pub apply_options : Client → List ClientOption → Client
apply_options c [] = c
apply_options c (o ∷ options) = apply_options (apply_option c o) options

-- New: without WithRetry the policy is the zero value.
unfoldable pub new_client : String → List ClientOption → Client
new_client gateway_base_url options =
    apply_options
      (record {
        gateway_base_url = trim_right_char b'/' gateway_base_url;
        retry_policy = record {
          retries = pos 0;
          min_delay = pos 0;
          max_delay = pos 0;
          retry_on_429 = false;
        };
      })
      options

-- RefreshViaBroker
unfoldable pub refresh_via_broker : Network → Client → String → Result SdkError (Assoc Value)
refresh_via_broker net c connection_id = refresh_connection net c connection_id

apply_options-gateway_base_url :
    (c : Client) (l : List ClientOption) → (apply_options c l).gateway_base_url ≡ c.gateway_base_url
unfolding apply_options apply_option
apply_options-gateway_base_url c [] = refl
apply_options-gateway_base_url c (with_http_client ∷ l) = apply_options-gateway_base_url c l
apply_options-gateway_base_url c (with_logger ∷ l) = apply_options-gateway_base_url c l
apply_options-gateway_base_url c (with_broker url key ∷ l) = apply_options-gateway_base_url c l
apply_options-gateway_base_url c (with_retry p ∷ l) =
    apply_options-gateway_base_url (record c { retry_policy = p }) l

apply_options_last :
    (c : Client) (l : List ClientOption) (p : RetryPolicy)
    → (apply_options c (l ++ with_retry p ∷ [])).retry_policy ≡ p
unfolding apply_options apply_option
apply_options_last c [] p = refl
apply_options_last c (o ∷ l) p = apply_options_last (apply_option c o) l p

-- No option changes the gateway's URL, and the last WithRetry is the policy.
pub new_client-with_retry :
    (url : String) (l : List ClientOption) (p : RetryPolicy)
    → ((new_client url (l ++ with_retry p ∷ [])).gateway_base_url ≡ trim_right_char b'/' url)
      × ((new_client url (l ++ with_retry p ∷ [])).retry_policy ≡ p)
unfolding new_client
new_client-with_retry url l p =
    (apply_options-gateway_base_url _ (l ++ with_retry p ∷ []), apply_options_last _ l p)
