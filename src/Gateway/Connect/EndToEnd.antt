-- ===== src/Gateway/Connect/EndToEnd.antt =====
-- nexus-gateway/pkg/usecase/handler.go, RequestConnectionCore, in front of the broker's GetSpec.
use nexus_framework.Prelude.{ℕ, String, ◌≡◌, refl, ◌∙◌, ap, sym, subst, false, some, ◌==◌, ◌<◌, ok}
use nexus_framework.Prelude.Maps.{lookup}
use nexus_framework.Prelude.Int.{pos, ◌+ℤ◌}
use nexus_framework.Broker.State.{StateData, verify_state, extract_connection_id}
use nexus_framework.Broker.State.Laws.{IsLawful, extract_connection_id-verify_state}
use nexus_framework.Broker.Db.{Connection, Faults, find_connection}
use nexus_framework.Broker.Handler.{Response, World, Config, Outside, run, settle}
use nexus_framework.Broker.Handler.Outcomes.{Ends}
use nexus_framework.Broker.Consent.{
  ConsentRequest, Fresh, new_connection, consent_spec, scopes_value, get_spec,
}
use nexus_framework.Broker.Consent.Outcome.{get_spec-Ends}
use nexus_framework.Broker.Consent.Outcome.Accepted.{consent_state_verified, found_first}
use nexus_framework.Gateway.Answers.{replied}
use nexus_framework.Gateway.FromBroker.{spec_of, spec_reply, texts_field}
use nexus_framework.Gateway.Connect.{
  ConnectInput, ConnectOutput, SpecRequest, BrokerClient, provider_id_of, request_connection_core,
}

-- The body that the gateway sends, as the broker decodes it.
abbrev pub to_consent_request : SpecRequest → ConsentRequest
to_consent_request q = record {
  workspace_id = q.workspace_id;
  provider_id = q.provider_id;
  scopes = q.scopes;
  return_url = q.return_url;
}

-- The client of a broker whose GetSpec runs over a world.
abbrev pub behind : Config → Outside → Fresh → Faults → World → BrokerClient → BrokerClient
behind config out fresh faults w broker = record broker {
  consent_spec =
      λ q. spec_reply (run (get_spec config out fresh faults (some (to_consent_request q))) w).0;
}

-- The request that the gateway sends for an input, with the resolved provider.
abbrev pub forwarded : ConnectInput → String → ConsentRequest
forwarded input provider_id = record {
  workspace_id = input.user_id;
  provider_id = provider_id;
  scopes = input.scopes;
  return_url = input.return_url;
}

-- The gateway's reader gives the nonce of a state that the broker's reader accepts.
extracted :
    (out : Outside) (key : String) (now : _) (state id : String) (d : StateData)
    → verify_state out.codec key now state ≡ ok d
    → d.nonce ≡ id
    → (id == "") ≡ false
    → extract_connection_id out.codec key now state ≡ ok id
extracted out key now state id d verified e given =
    extract_connection_id-verify_state out.codec key now state ∙ rw (verified, e, given) refl

-- What the client reads of a consent's answer: its state.
spec_reply-consent_spec :
    (request : ConsentRequest) (url state : String)
    → spec_reply (consent_spec request (url, state))
      ≡ replied 200 (
          some (record {
            auth_url = some url;
            state = some state;
            scopes = texts_field (some (scopes_value request.scopes));
            provider_id = some request.provider_id;
          }))
unfolding spec_reply spec_of lookup
spec_reply-consent_spec request url state = refl

-- Where the broker's GetSpec answers the request that the gateway sends, RequestConnectionCore
-- answers with the identifier of the connection that GetSpec has created: pending, and of the
-- user's workspace. This is within ten minutes, with the broker's key at the gateway, a codec that
-- decodes what it encodes, an identifier whose text is not empty, and a provider that the gateway
-- resolves.
pub request_connection_core-get_spec :
    (config : Config) (out : Outside) (fresh : Fresh) (faults : Faults) (broker : BrokerClient)
    (input : ConnectInput) (provider_id : String) (t : ℕ) (w : World) (r : Response) (w' : World)
    → IsLawful out.codec
    → Ends (get_spec config out fresh faults (some (forwarded input provider_id))) w r w'
    → provider_id_of (behind config out fresh faults w broker) input ≡ ok provider_id
    → t < 600000000000
    → (out.uuid_text fresh.new_uuid == "") ≡ false
    → (o : ConnectOutput) × (c : Connection) × (request_connection_core
          (record { codec = out.codec; state_key = config.state_key; now = out.now +ℤ pos t })
          (behind config out fresh faults w broker)
          input
        ≡ ok o)
      × (o.connection_id ≡ out.uuid_text fresh.new_uuid)
      × (find_connection fresh.new_uuid w'.db.connections ≡ some c)
      × (c.status ≡ "pending")
      × (c.workspace_id ≡ input.user_id)
unfolding request_connection_core run new_connection
request_connection_core-get_spec config out fresh faults broker input provider_id t w r w' law
      started resolved young given =
    let (p, verifier, url, state, known, free, signed, made, for_it, result, after) =
      get_spec-Ends config out fresh faults (forwarded input provider_id) w started in
    let (d, nonce, verified) =
      consent_state_verified config out fresh (forwarded input provider_id) out "" law t state young
        signed in
    let reply =
      ap (λ x. spec_reply (settle x.0)) started
      ∙ ap spec_reply result
      ∙ spec_reply-consent_spec (forwarded input provider_id) url state in
    let read =
      extracted out config.state_key (out.now +ℤ pos t) state (out.uuid_text fresh.new_uuid) d
        verified nonce given in
    (
      record {
        auth_url = url;
        state = state;
        scopes = texts_field (some (scopes_value input.scopes));
        provider_id = provider_id;
        connection_id = out.uuid_text fresh.new_uuid;
      },
      new_connection out fresh (forwarded input provider_id) p verifier,
      rw (resolved, reply, read) refl,
      refl,
      subst
          (λ l.
            find_connection fresh.new_uuid l
            ≡ some (new_connection out fresh (forwarded input provider_id) p verifier))
          (sym (ap (λ x. x.db.connections) after))
          (found_first fresh.new_uuid _ w.db.connections refl),
      refl,
      refl,
    )
