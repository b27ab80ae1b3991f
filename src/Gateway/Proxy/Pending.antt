-- ===== src/Gateway/Proxy/Pending.antt =====
-- nexus-gateway/pkg/usecase/handler.go, CheckConnectionCore, in front of the broker's GetToken.
use nexus_framework.Prelude.{
  ℕ, String, ◌≡◌, refl, false, some, [], ◌==◌, ok, err, Bool-cases, inl, inr,
}
use nexus_framework.Prelude.Text.{split}
use nexus_framework.Broker.Db.{Connection, Provider, Faults, select_joined, joined}
use nexus_framework.Broker.Handler.{
  Response, Handler, ◌>>=◌, ◌>>◌, World, Config, Outside, run, pure, reply, require, get_db,
  require_audited, path_id,
}
use nexus_framework.Broker.Token.{get_token, token_connection_id, not_active_response}
use nexus_framework.Gateway.FromBroker.{token_reply}
use nexus_framework.Gateway.Proxy.{check_connection_core}
use nexus_framework.Broker.Callback.Completes.{Gives, Gives-log_audit_event}

-- A handler returns early.
abbrev Replies : {A : Type 0} → Handler A → World → Response → Type 0
Replies m w r = (m w).0 ≡ err r

Replies-bind :
    {A B : Type 0} (m : Handler A) (f : A → Handler B) (w v : World) (a : A) {r : Response}
    → m w ≡ (ok a, v)
    → Replies (f a) v r
    → Replies (m >>= f) w r
unfolding ◌>>=◌
Replies-bind m f w v a h k = rw h k

Replies-first :
    {A B : Type 0} (m : Handler A) (k : Handler B) (w : World) {r : Response}
    → Replies m w r
    → Replies (m >> k) w r
unfolding ◌>>=◌ ◌>>◌
Replies-first m k w h = rw h refl

Replies-then :
    {A B : Type 0} (m : Handler A) (k : Handler B) (w : World) {a : A} {r : Response}
    → Gives m w a
    → Replies k (m w).1 r
    → Replies (m >> k) w r
unfolding ◌>>=◌ ◌>>◌
Replies-then m k w h g = rw h g

reported :
    (status : String)
    → check_connection_core (token_reply (not_active_response status)) ≡ some "failed"
unfolding check_connection_core token_reply not_active_response
reported status = elim (Bool-cases (status == "attention")) [
  | inl attention ↦ rw attention refl
  | inr other ↦ rw other refl
]

module _ (config : Config) (out : Outside) (faults : Faults) where
  identified :
      (path text : String) (id : ℕ) (w : World)
      → path_id (split b'/' path) ≡ some text
      → out.parse_uuid text ≡ some id
      → token_connection_id config out faults path w ≡ (ok id, w)
  unfolding token_connection_id pure require require_audited ◌>>=◌
  identified path text id w found parsed = rw (found, require) (rw (parsed, require_audited) refl)

  -- Where the connection is not active, GetToken answers with not_active_response.
  get_token-Replies :
      (path text : String) (id : ℕ) (c : Connection) (p : Provider) (w : World)
      → path_id (split b'/' path) ≡ some text
      → out.parse_uuid text ≡ some id
      → faults select_joined ≡ false
      → joined id w.db ≡ some (c, p)
      → (c.status == "active") ≡ false
      → Replies (get_token config out faults path) w (not_active_response c.status)
  unfolding get_token pure require_audited get_db reply
  get_token-Replies path text id c p w found parsed fine there other =
      Replies-bind _ _ w w id (identified path text id w found parsed) (
        Replies-bind _ _ w w w.db refl (
          Replies-bind _ _ w w (c, p) (rw (fine, there, require_audited) refl)
            (Replies-first _ _ w (
              rw other (
                Replies-then _ _ w
                  (Gives-log_audit_event config faults (some id) "token_retrieval_failed" [] w)
                  refl)))))

  -- The gateway reports every connection that is not active as failed: CheckConnection, which takes
  -- the broker's answer to a request for the token, says "failed" for a connection that is still
  -- pending. This is for a path with the identifier of a connection that the broker finds, with its
  -- provider, without a fault of that statement.
  pub check_connection_core-get_token :
      (path text : String) (id : ℕ) (c : Connection) (p : Provider) (w : World)
      → path_id (split b'/' path) ≡ some text
      → out.parse_uuid text ≡ some id
      → faults select_joined ≡ false
      → joined id w.db ≡ some (c, p)
      → (c.status == "active") ≡ false
      → check_connection_core (token_reply (run (get_token config out faults path) w).0)
        ≡ some "failed"
  unfolding run
  check_connection_core-get_token path text id c p w found parsed fine there other =
      rw (get_token-Replies path text id c p w found parsed fine there other) (reported c.status)
