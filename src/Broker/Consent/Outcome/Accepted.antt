-- ===== src/Broker/Consent/Outcome/Accepted.antt =====
-- nexus-broker/pkg/handlers: a consent and then its callback.
use nexus_framework.Prelude.{ℕ, String, ◌≡◌, refl, false, some, List, [], ◌∷◌, ◌<◌, arith, ok}
use nexus_framework.Prelude.Maps.{Assoc}
use nexus_framework.Prelude.Int.{ℤ, pos, negsuc, ◌+ℤ◌, ◌-ℤ◌, saturate64}
use nexus_framework.Json.{Value}
use nexus_framework.Broker.State.{StateData, sign_state, verify_state, check_age}
use nexus_framework.Broker.State.Laws.{IsLawful, verify_state-sign_state}
use nexus_framework.Broker.Db.{Connection, Provider, find_connection}
use nexus_framework.Broker.Handler.{Config, Outside, encrypt}
use nexus_framework.Broker.Callback.{CallbackRequest, callback_exchange, has_bad_id_token}
use nexus_framework.Broker.Consent.{ConsentRequest, Fresh, consent_state}
use nexus_framework.Broker.Consent.Outcome.{signed_text_ok}

ago_self : (now : ℤ) (t : ℕ) → (now +ℤ pos t) -ℤ now ≡ pos t
unfolding ◌+ℤ◌ ◌-ℤ◌
ago_self (pos n) t = ground arith
ago_self (negsuc n) t = ground arith

check_age_young :
    (now : ℤ) (t : ℕ) (d : StateData)
    → d.iat ≡ now
    → t < 600000000000
    → check_age (now +ℤ pos t) d ≡ ok d
unfolding check_age saturate64
check_age_young now t d e h = rw (e, ago_self now t) (ground arith)

pub found_first :
    (id : ℕ) (c : Connection) (l : List Connection)
    → c.id ≡ id
    → find_connection id (c ∷ l) ≡ some c
unfolding find_connection
found_first id c l e = ground arith

-- The callback of a state, without an error from the provider.
abbrev pub returned : String → String → CallbackRequest
returned code state = record { code = code; state = state; error = ""; error_description = "" }

module _ (config : Config) (out : Outside) (fresh : Fresh) (request : ConsentRequest)
    (out' : Outside) (code : String) where
  -- The provider answers the exchange with tokens that can be stored, whose identity token, if it
  -- has to be, is verified, and the return URL takes the query of the callback.
  abbrev pub Answers : String → Connection → Provider → Type 0
  Answers state c p =
      (t : Assoc Value) × (text : String) × (sealed : String) × (target : String)
      × (callback_exchange config out' code c p ≡ some t)
      × (has_bad_id_token out' state c p t ≡ false)
      × (out'.to_json t ≡ some text)
      × (encrypt out' config.encryption_key text ≡ some sealed)
      × (out'.with_query c.return_url (
            ("status", "success")
            ∷ ("connection_id", out'.uuid_text fresh.new_uuid)
            ∷ ("provider", p.name)
            ∷ [])
          ≡ some target)

  pub consent_state_verified :
      IsLawful out.codec
      → (t : ℕ) (state : String) → t < 600000000000
      → consent_state config out fresh request ≡ some state
      → (d : StateData) × (d.nonce ≡ out.uuid_text fresh.new_uuid)
        × (verify_state out.codec config.state_key (out.now +ℤ pos t) state ≡ ok d)
  unfolding consent_state
  consent_state_verified law t state young signed =
      let d : StateData = record {
        workspace_id = request.workspace_id;
        provider_id = request.provider_id;
        nonce = out.uuid_text fresh.new_uuid;
        iat = out.now;
      } in
      (
        d,
        refl,
        verify_state-sign_state out.codec law config.state_key (out.now +ℤ pos t) d state
            (signed_text_ok (sign_state out.codec config.state_key d) signed)
            (check_age_young out.now t d refl young),
      )
