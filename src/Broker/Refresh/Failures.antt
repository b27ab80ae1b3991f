-- ===== src/Broker/Refresh/Failures.antt =====
-- nexus-broker/pkg/handlers/callback.go, Refresh: what a refresh does when it fails.
use nexus_framework.Prelude.{
  ℕ, String, ◌≡◌, ◌≢◌, ◌⊎◌, refl, ◌∙◌, ap, sym, subst, Bool, true, false, ◌&&◌, Option, none, some,
  if◌then◌else◌, arith, Result, ok, err, Bool-cases, Option-cases, inl, inr, leb, ltb,
}
use nexus_framework.Prelude.Maps.{Assoc}
use nexus_framework.Json.{Value}
use nexus_framework.Prelude.Text.{split}
use nexus_framework.Broker.Handler.Outcomes.{Ends, bind-Ends, pure-Ends, require-Ends}
use nexus_framework.Broker.Db.{
  Faults, Connection, Provider, set_status, update_status, upsert_token,
}
use nexus_framework.Broker.Exchange.{Refreshed, tokens, failed, refresh_tokens}
use nexus_framework.Broker.Handler.{
  Response, dropped, error, json, redirect, World, Config, Outside, Handler, ◌>>=◌, ◌>>◌, continue,
  get_db, require, guard, reply, pure, store_tokens, update_connection_status, log_audit_event,
  text_or_empty, settle, encrypt, path_id,
}
use nexus_framework.Broker.Refresh.{
  refresh_row, check_refreshable, refresh_inputs, refresh_outcome, refresh,
}

-- The status of a response; a redirect is 302, and no answer is 0.
abbrev pub status_of : Response → ℕ
status_of (error n _) = n
status_of (json n _) = n
status_of (redirect _) = 302
status_of dropped = 0

-- A handler that only reads.
pub record ReadsOnly {A : Type 0} (m : Handler A) : Type 0 where
  pub at : (w : World) → (m w).1 ≡ w

require-ReadsOnly : {A : Type 0} (o : Option A) (r : Response) → ReadsOnly (require o r)
unfolding require pure reply
require-ReadsOnly none r = record { at = λ w. refl }
require-ReadsOnly (some a) r = record { at = λ w. refl }

guard-ReadsOnly : (b : Bool) (r : Response) → ReadsOnly (guard b r)
unfolding guard pure reply
guard-ReadsOnly true r = record { at = λ w. refl }
guard-ReadsOnly false r = record { at = λ w. refl }

get_db-ReadsOnly : ReadsOnly get_db
unfolding get_db
get_db-ReadsOnly = record { at = λ w. refl }

pure-ReadsOnly : {A : Type 0} (a : A) → ReadsOnly (pure a)
unfolding pure
pure-ReadsOnly a = record { at = λ w. refl }

reply-ReadsOnly : {A : Type 0} (r : Response) → ReadsOnly (reply {A = A} r)
unfolding reply
reply-ReadsOnly r = record { at = λ w. refl }

if-ReadsOnly :
    {A : Type 0} (b : Bool) (m n : Handler A)
    → ReadsOnly m
    → ReadsOnly n
    → ReadsOnly (if b then m else n)
if-ReadsOnly true m n hm hn = hm
if-ReadsOnly false m n hm hn = hn

continue-world :
    {A B : Type 0} (r : Result Response A) (f : A → Handler B) (w : World)
    → ((a : A) → (f a w).1 ≡ w)
    → (continue r f w).1 ≡ w
continue-world (ok a) f w h = h a
continue-world (err r) f w h = refl

bind-ReadsOnly :
    {A B : Type 0} (m : Handler A) (f : A → Handler B)
    → ReadsOnly m
    → ((a : A) → ReadsOnly (f a))
    → ReadsOnly (m >>= f)
unfolding ◌>>=◌
bind-ReadsOnly m f hm hf = record {
  at = λ w. continue-world (m w).0 f (m w).1 (λ a. (hf a).at (m w).1) ∙ hm.at w;
}

then-ReadsOnly :
    {A B : Type 0} (m : Handler A) (k : Handler B) → ReadsOnly m → ReadsOnly k → ReadsOnly (m >> k)
unfolding ◌>>◌
then-ReadsOnly m k hm hk = bind-ReadsOnly m (λ _. k) hm (λ _. hk)

ruleset reading = (
  require-ReadsOnly, guard-ReadsOnly, get_db-ReadsOnly, pure-ReadsOnly, reply-ReadsOnly,
  if-ReadsOnly, bind-ReadsOnly, then-ReadsOnly,
)

-- What is left of a refresh that is not answered with 200, of a connection with a property.
abbrev pub Failed : (ℕ → Type 0) → World → World → Type 0
Failed Names w w' =
    (w'.db.tokens ≡ w.db.tokens)
    × ((w'.db.connections ≡ w.db.connections)
        ⊎ ((id : ℕ) × Names id × (w'.db.connections ≡ set_status id "attention" w.db.connections)))

module _ (Names : ℕ → Type 0) where
  record FailsSafe (m : Handler Response) : Type 0 where
    pub at : (w : World) → status_of (settle (m w).0) ≢ 200 → Failed Names w (m w).1

  continue-Failed :
      {A : Type 0} (r : Result Response A) (f : A → Handler Response) (w : World)
      → ((a : A) → r ≡ ok a → FailsSafe (f a))
      → status_of (settle (continue r f w).0) ≢ 200
      → Failed Names w (continue r f w).1
  continue-Failed (ok a) f w hf h = (hf a refl).at w h
  continue-Failed (err r) f w hf h = (refl, inl refl)

  bind-FailsSafe :
      {A : Type 0} (m : Handler A) (f : A → Handler Response)
      → ReadsOnly m
      → ((a : A) → ((w : World) × ((m w).0 ≡ ok a)) → FailsSafe (f a))
      → FailsSafe (m >>= f)
  unfolding ◌>>=◌
  bind-FailsSafe m f hm hf = record {
    at = λ w h.
        subst (λ v. Failed Names v (continue (m w).0 f (m w).1).1) (hm.at w)
          (continue-Failed (m w).0 f (m w).1 (λ a given. hf a (w, given)) h);
  }

answered : {A : Type 0} (m : Handler A) (w : World) {a : A} → (m w).0 ≡ ok a → Ends m w a (m w).1
answered m w h = ap (λ x. (x, (m w).1)) h

module _ (config : Config) (out : Outside) (faults : Faults) where
  row-ReadsOnly : (path : String) → ReadsOnly (refresh_row config out faults path)
  unfolding refresh_row
  row-ReadsOnly path = search reading depth 30

  test-ReadsOnly : (auth_type : String) → ReadsOnly (check_refreshable auth_type)
  unfolding check_refreshable
  test-ReadsOnly auth_type = search reading depth 30

  inputs-ReadsOnly : (id : ℕ) (c : Connection) → ReadsOnly (refresh_inputs config out faults id c)
  unfolding refresh_inputs
  inputs-ReadsOnly id c = search reading depth 30

  store_failed :
      (id : ℕ) (t : Assoc Value) (w : World)
      → ((store_tokens config out faults id t w).0 ≡ ok true)
        ⊎ (store_tokens config out faults id t w ≡ (ok false, w))
  unfolding store_tokens
  store_failed id t w = elim (Option-cases (out.to_json t)) [
    | inl lost ↦ inr (rw (lost, store_tokens) refl)
    | inr (text, written) ↦ elim (Option-cases (encrypt out config.encryption_key text)) [
      | inl lost ↦ inr (rw (written, lost, store_tokens) refl)
      | inr (sealed, e) ↦ elim (Bool-cases (faults upsert_token)) [
        | inl lost ↦ inr (rw (written, e, lost, store_tokens) refl)
        | inr fine ↦ inl (rw (written, e, fine, store_tokens) refl)
      ]
    ]
  ]

  outcome-FailsSafe :
      (Names : ℕ → Type 0) (id : ℕ) (r : Refreshed)
      → Names id
      → FailsSafe Names (refresh_outcome config out faults id r)
  unfolding refresh_outcome log_audit_event update_connection_status ◌>>=◌ ◌>>◌ pure reply guard
  outcome-FailsSafe Names id (failed status) named = record {
    at = λ w h. (
      ground arith,
      elim (Bool-cases (leb 400 status && ltb status 500)) [
        | inr transient ↦ inl (rw transient refl)
        | inl fatal ↦ elim (Bool-cases (faults update_status)) [
          | inl lost ↦ inl (ground (arith, lost, fatal))
          | inr fine ↦ inr (id, named, ground (arith, fine, fatal))
        ]
      ],
    );
  }
  outcome-FailsSafe Names id (tokens t) named = record {
    at = λ w h. elim (store_failed id t w) [
      | inl stored ↦ absurd (h (rw stored refl))
      | inr lost ↦ rw lost (refl, inl refl)
    ];
  }

  -- The connection that a path names.
  abbrev pub IsNamed : String → ℕ → Type 0
  IsNamed path id =
      (text : String) × (path_id (split b'/' path) ≡ some text) × (out.parse_uuid text ≡ some id)

  row-IsNamed :
      (path : String) (row : ℕ × (Connection × Provider)) (w : World)
      → (refresh_row config out faults path w).0 ≡ ok row
      → IsNamed path row.0
  unfolding refresh_row
  row-IsNamed path row w h =
      let (text, v1, found, rest1) =
        bind-Ends _ _ w (answered (refresh_row config out faults path) w h) in
      let (id, v2, parsed, rest2) = bind-Ends _ _ v1 rest1 in
      let (db, v3, got, rest3) = bind-Ends _ _ v2 rest2 in
      let (pair, v4, known, rest4) = bind-Ends _ _ v3 rest3 in
      let (result, same) = pure-Ends _ v4 rest4 in
      let (named, same1) = require-Ends _ _ w found in
      let (read, same2) = require-Ends _ _ v1 parsed in
      (text, named, read ∙ ap some (sym (ap (λ x. x.0) result)))

  -- A refresh that is not answered with 200 keeps every stored token, and changes no connection, or
  -- only the status of the one that the path names, to "attention".
  pub refresh_failed :
      (path : String) (w : World)
      → status_of (settle (refresh config out faults path w).0) ≢ 200
      → Failed (IsNamed path) w (refresh config out faults path w).1
  unfolding refresh ◌>>=◌ ◌>>◌
  refresh_failed path w h =
      (bind-FailsSafe (IsNamed path) (refresh_row config out faults path) _ (row-ReadsOnly path)
          (λ row found.
            bind-FailsSafe (IsNamed path) (check_refreshable ((row.1).1).auth_type) _
              (test-ReadsOnly ((row.1).1).auth_type)
              (λ u _.
                bind-FailsSafe (IsNamed path) (refresh_inputs config out faults row.0 (row.1).0) _
                  (inputs-ReadsOnly row.0 (row.1).0)
                  (λ inputs _.
                    outcome-FailsSafe (IsNamed path) row.0
                      (refresh_tokens out (text_or_empty (inputs.0).token_url)
                        (text_or_empty (inputs.0).client_id)
                        (text_or_empty (inputs.0).client_secret) inputs.1)
                      (row-IsNamed path row found.0 found.1))))).at
        w h
