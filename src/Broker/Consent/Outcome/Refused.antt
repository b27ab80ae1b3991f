-- ===== src/Broker/Consent/Outcome/Refused.antt =====
-- nexus-broker/pkg/handlers/consent.go, GetSpec: what a consent that is refused leaves behind.
use nexus_framework.Prelude.{
  ap, ◌≡◌, refl, ◌∙◌, sym, subst, Bool, true, false, ◌||◌, Option, none, some, ◌==◌, ◌⊎◌, arith,
  Result, ok, err, Bool-cases, Result-cases, inl, inr,
}
use nexus_framework.Broker.Db.{Connection, Provider, Faults, insert_connection, has_connection}
use nexus_framework.Broker.Handler.{
  Response, World, Config, Outside, Handler, continue, ◌>>=◌, ◌>>◌, pure, reply, require, guard,
  get_db, count_metric,
}
use nexus_framework.Broker.Consent.{
  ConsentRequest, Fresh, new_connection, create_connection, oauth2_consent, static_consent,
  consent_by_type, consent_spec, consent_checks, count_consent, get_spec,
}
use nexus_framework.Broker.Consent.Created.{with_connection}
use nexus_framework.Broker.Consent.Outcome.{Started, get_spec-Ends}

-- Nothing has changed, or one new pending connection is there.
abbrev pub AtMostPending : World → World → Type 0
AtMostPending w w' =
    (w' ≡ w)
    ⊎ ((c : Connection) × (c.status ≡ "pending")
        × (has_connection w.db.connections c.id ≡ false)
        × (w' ≡ with_connection c w))

-- A handler that changes nothing, one that at most creates, and one that does so where it fails.
record IsIdle {A : Type 0} (m : Handler A) : Type 0 where
  at : (w : World) → (m w).1 ≡ w

record Creates {A : Type 0} (m : Handler A) : Type 0 where
  at : (w : World) → AtMostPending w (m w).1

record Refuses {A : Type 0} (m : Handler A) : Type 0 where
  at : (w : World) (r : Response) (w' : World) → m w ≡ (err r, w') → AtMostPending w w'

IsIdle-require : {A : Type 0} (o : Option A) (r : Response) → IsIdle (require o r)
unfolding require pure reply
IsIdle-require none r = record { at = λ w. refl }
IsIdle-require (some a) r = record { at = λ w. refl }

IsIdle-guard : (b : Bool) (r : Response) → IsIdle (guard b r)
unfolding guard pure reply
IsIdle-guard true r = record { at = λ w. refl }
IsIdle-guard false r = record { at = λ w. refl }

IsIdle-pure : {A : Type 0} (a : A) → IsIdle (pure a)
unfolding pure
IsIdle-pure a = record { at = λ w. refl }

IsIdle-get_db : IsIdle get_db
unfolding get_db
IsIdle-get_db = record { at = λ w. refl }

IsIdle-continue :
    {A B : Type 0} (r : Result Response A) (f : A → Handler B)
    → ((a : A) → IsIdle (f a))
    → (w : World) → (continue r f w).1 ≡ w
IsIdle-continue (ok a) f k w = (k a).at w
IsIdle-continue (err r) f k w = refl

IsIdle-bind :
    {A B : Type 0} (m : Handler A) (f : A → Handler B)
    → IsIdle m
    → ((a : A) → IsIdle (f a))
    → IsIdle (m >>= f)
unfolding ◌>>=◌
IsIdle-bind m f h k = record { at = λ w. IsIdle-continue (m w).0 f k (m w).1 ∙ h.at w }

IsIdle-then : {A B : Type 0} (m : Handler A) (k : Handler B) → IsIdle m → IsIdle k → IsIdle (m >> k)
unfolding ◌>>◌
IsIdle-then m k h g = IsIdle-bind m (λ _. k) h (λ _. g)

Creates-idle : {A : Type 0} (m : Handler A) → IsIdle m → Creates m
Creates-idle m h = record { at = λ w. inl (h.at w) }

Creates-continue :
    {A B : Type 0} (r : Result Response A) (f : A → Handler B)
    → ((a : A) → Creates (f a))
    → (w : World) → AtMostPending w (continue r f w).1
Creates-continue (ok a) f k w = (k a).at w
Creates-continue (err r) f k w = inl refl

Creates-after :
    {A B : Type 0} (m : Handler A) (f : A → Handler B)
    → IsIdle m
    → ((a : A) → Creates (f a))
    → Creates (m >>= f)
unfolding ◌>>=◌
Creates-after m f h k = record {
  at = λ w.
      subst (λ v. AtMostPending v (continue (m w).0 f (m w).1).1) (h.at w)
        (Creates-continue (m w).0 f k (m w).1);
}

Creates-then :
    {A B : Type 0} (m : Handler A) (k : Handler B) → Creates m → IsIdle k → Creates (m >> k)
unfolding ◌>>◌ ◌>>=◌
Creates-then m k h g = record {
  at = λ w.
      subst (AtMostPending w) (sym (IsIdle-continue (m w).0 (λ _. k) (λ _. g) (m w).1)) (h.at w);
}

Creates-create_connection :
    (faults : Faults) (c : Connection) → c.status ≡ "pending" → Creates (create_connection faults c)
unfolding create_connection
Creates-create_connection faults c e = record {
  at = λ w. elim (Bool-cases (faults insert_connection || has_connection w.db.connections c.id)) [
    | inl failed ↦ rw failed (inl refl)
    | inr fine ↦ rw fine (inr (c, e, ground (arith, fine), refl))
  ];
}

Refuses-continue :
    {A B : Type 0} (s : Result Response A) (f : A → Handler B)
    → ((a : A) → Refuses (f a))
    → (v : World) (r : Response) (w' : World) → continue s f v ≡ (err r, w')
    → AtMostPending v w'
Refuses-continue (ok a) f k v r w' e = (k a).at v r w' e
Refuses-continue (err x) f k v r w' e = inl (cc e)

Refuses-after :
    {A B : Type 0} (m : Handler A) (f : A → Handler B)
    → IsIdle m
    → ((a : A) → Refuses (f a))
    → Refuses (m >>= f)
unfolding ◌>>=◌
Refuses-after m f h k = record {
  at = λ w r w' e.
      subst (λ v. AtMostPending v w') (h.at w) (Refuses-continue (m w).0 f k (m w).1 r w' e);
}

-- A handler whose last steps always give a value.
continue_last :
    {A B : Type 0} (s : Result Response A) (f : A → Handler B) (g : A → B)
    → ((a : A) (v : World) → (f a v).0 ≡ ok (g a))
    → (v : World) (r : Response) (w' : World) → continue s f v ≡ (err r, w')
    → w' ≡ v
continue_last (ok a) f g k v r w' e = absurd (cc (k a v, e))
continue_last (err x) f g k v r w' e = cc e

Refuses-last :
    {A B : Type 0} (m : Handler A) (f : A → Handler B) (g : A → B)
    → Creates m
    → ((a : A) (v : World) → (f a v).0 ≡ ok (g a))
    → Refuses (m >>= f)
unfolding ◌>>=◌
Refuses-last m f g h k = record {
  at = λ w r w' e.
      subst (AtMostPending w) (sym (continue_last (m w).0 f g k (m w).1 r w' e)) (h.at w);
}

ruleset idle_rules =
    (IsIdle-require, IsIdle-guard, IsIdle-pure, IsIdle-get_db, IsIdle-bind, IsIdle-then)

module _ (config : Config) (out : Outside) (fresh : Fresh) (faults : Faults) where
  Creates-oauth2_consent :
      (request : ConsentRequest) (p : Provider)
      → Creates (oauth2_consent config out fresh faults request p)
  unfolding oauth2_consent new_connection
  Creates-oauth2_consent request p = Creates-after _ _ (IsIdle-require _ _) (λ pkce.
      Creates-then _ _ (Creates-create_connection faults _ refl) (search idle_rules depth 30))

  Creates-static_consent :
      (request : ConsentRequest) (p : Provider)
      → Creates (static_consent config out fresh faults request p)
  unfolding static_consent new_connection
  Creates-static_consent request p =
      Creates-then _ _ (Creates-create_connection faults _ refl) (search idle_rules depth 30)

  Creates-consent_by_type :
      (request : ConsentRequest) (p : Provider)
      → Creates (consent_by_type config out fresh faults request p)
  unfolding consent_by_type reply
  Creates-consent_by_type request p =
      elim (Bool-cases (p.auth_type == "oauth2" || p.auth_type == "")) [
        | inl oauth ↦ rw oauth (Creates-oauth2_consent request p)
        | inr other ↦ elim (Bool-cases (p.auth_type == "api_key" || p.auth_type == "basic_auth")) [
          | inl static ↦ rw (other, static) (Creates-static_consent request p)
          | inr unknown ↦ rw (other, unknown) (record { at = λ w. inl refl })
        ]
      ]

  IsIdle-consent_checks :
      (body : Option ConsentRequest) → IsIdle (consent_checks config out fresh faults body)
  unfolding consent_checks
  IsIdle-consent_checks body = search idle_rules depth 30

  get_spec_refused :
      (body : Option ConsentRequest) (w : World) (r : Response) (w' : World)
      → get_spec config out fresh faults body w ≡ (err r, w')
      → AtMostPending w w'
  unfolding get_spec count_consent count_metric pure ◌>>◌ ◌>>=◌
  get_spec_refused body w r w' h =
      (Refuses-after _ _ (IsIdle-consent_checks body) (λ row.
          Refuses-last _ _ (consent_spec row.0) (Creates-consent_by_type row.0 row.1)
            (λ spec v. refl))).at
        w r w' h

  -- How a consent can end: with an answer, as specified by Started, or refused.
  abbrev pub Outcome : Option ConsentRequest → World → Result Response Response → World → Type 0
  Outcome none w (ok r) w' = ⊥
  Outcome (some request) w (ok r) w' = Started config out fresh faults request w r w'
  Outcome body w (err r) w' = AtMostPending w w'

  no_body :
      (w : World)
      → Outcome none w
          (get_spec config out fresh faults none w).0
          (get_spec config out fresh faults none w).1
  unfolding get_spec consent_checks require reply ◌>>=◌
  no_body w = inl refl

  -- Every consent is answered or refused. One that is answered has found the provider that the
  -- request names, created one pending connection under a new identifier, with the workspace and the
  -- return URL of the request, signed a state with that identifier, answered with that state, and
  -- counted the consent; nothing else has changed. If the
  -- provider's type is "oauth2" or "", the connection keeps the verifier that generate_pkce drew, and
  -- the URL is what build_auth_url makes of the provider, the state, the scopes and the challenge; if
  -- it is "api_key" or "basic_auth", there is no verifier, and the URL is that of the capture form. One that is refused, with
  -- whatever error, has changed nothing, or has only created one pending connection; in particular
  -- it is not counted.
  pub get_spec-Outcome :
      (body : Option ConsentRequest) (w : World)
      → Outcome body w
          (get_spec config out fresh faults body w).0
          (get_spec config out fresh faults body w).1
  get_spec-Outcome none w = no_body w
  get_spec-Outcome (some request) w =
      elim (Result-cases (get_spec config out fresh faults (some request) w).0) [
        | inl (r, answered) ↦ rw answered (
            get_spec-Ends config out fresh faults request w
              (ap (λ x. (x, (get_spec config out fresh faults (some request) w).1)) answered))
        | inr (r, refused) ↦ rw refused (
            get_spec_refused (some request) w r
              (get_spec config out fresh faults (some request) w).1
              (ap (λ x. (x, (get_spec config out fresh faults (some request) w).1)) refused))
      ]
