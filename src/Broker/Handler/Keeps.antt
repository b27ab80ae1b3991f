-- ===== src/Broker/Handler/Keeps.antt =====
-- nexus-broker/pkg/handlers: what no handler does to the database, one rule for each way to build
-- a handler.
use nexus_framework.Prelude.{
  ℕ, String, ◌≡◌, refl, ap, ◌∙◌, sym, Bool, true, false, Option, none, some, List, [], ◌∷◌, ◌++◌,
  ◌==◌, if◌then◌else◌, arith, Result, ok, err, Bool-cases, inl, inr, Option-cases,
}
use nexus_framework.Prelude.Maps.{Assoc}
use nexus_framework.Json.{Value}
use nexus_framework.Broker.Db.{
  Connection, AuditEvent, Faults, set_status, insert_audit, update_status, upsert_token,
}
use nexus_framework.Broker.Db.Laws.{IsUnique, IsUnique-upsert_token_row}
use nexus_framework.Broker.Handler.{
  Response, Metrics, World, Config, Outside, Handler, continue, ◌>>=◌, ◌>>◌, pure, reply, require,
  guard, get_db, count_metric, log_audit_event, update_connection_status, encrypt, store_tokens,
  require_audited,
}

abbrev pub is_pending : Connection → Bool
is_pending c = c.status == "pending"

-- The same connections, but for their status, which does not become "pending".
abbrev pub Alike : List Connection → List Connection → Type 0
Alike [] [] = Unit
Alike (c ∷ l) (d ∷ m) =
    (d ≡ record c { status = d.status }) × (is_pending d ≡ true → is_pending c ≡ true) × Alike l m
Alike _ _ = ⊥

-- A later world: connections differ in their status only and never to "pending", providers not at all, the tokens stay
-- unique, and the audit events grow at their end.
pub record Extends (w w' : World) : Type 0 where
  pub connections : Alike w.db.connections w'.db.connections
  pub providers : w'.db.providers ≡ w.db.providers
  pub tokens : IsUnique w.db.tokens → IsUnique w'.db.tokens
  pub audit_events : (more : List AuditEvent) × (w'.db.audit_events ≡ w.db.audit_events ++ more)

Alike-refl : (l : List Connection) → Alike l l
Alike-refl [] = tt
Alike-refl (c ∷ l) = (refl, λ h. h, Alike-refl l)

Alike-trans : (a b c : List Connection) → Alike a b → Alike b c → Alike a c
Alike-trans [] [] [] h k = tt
Alike-trans (x ∷ a) (y ∷ b) (z ∷ c) (h, f, hs) (k, g, ks) =
    (cc, λ p. f (g p), Alike-trans a b c hs ks)
Alike-trans [] [] (z ∷ c) h k = k
Alike-trans [] (y ∷ b) c h k = absurd h
Alike-trans (x ∷ a) [] c h k = absurd h
Alike-trans (x ∷ a) (y ∷ b) [] h k = k

Alike-set_status :
    (id : ℕ) (status : String) (l : List Connection)
    → (status == "pending") ≡ false
    → Alike l (set_status id status l)
unfolding set_status
Alike-set_status id status [] fine = tt
Alike-set_status id status (c ∷ l) fine =
    (ground arith, ground arith, Alike-set_status id status l fine)

pub append-nil : {A : Type 0} → (l : List A) → l ++ [] ≡ l
append-nil [] = refl
append-nil (x ∷ l) = ap (λ m. x ∷ m) (append-nil l)

pub append_assoc : {A : Type 0} → (l m n : List A) → (l ++ m) ++ n ≡ l ++ (m ++ n)
append_assoc [] m n = refl
append_assoc (x ∷ l) m n = ap (λ r. x ∷ r) (append_assoc l m n)

pub Extends-refl : (w : World) → Extends w w
Extends-refl w = record {
  connections = Alike-refl w.db.connections;
  providers = refl;
  tokens = λ h. h;
  audit_events = ([], sym (append-nil w.db.audit_events));
}

pub Extends-trans : (a b c : World) → Extends a b → Extends b c → Extends a c
Extends-trans a b c h k = record {
  connections =
      Alike-trans a.db.connections b.db.connections c.db.connections h.connections k.connections;
  providers = k.providers ∙ h.providers;
  tokens = λ u. k.tokens (h.tokens u);
  audit_events =
      let (m, e) = h.audit_events in
      let (n, f) = k.audit_events in
      (m ++ n, f ∙ ap (λ l. l ++ n) e ∙ append_assoc a.db.audit_events m n);
}

pub record Keeps {A : Type 0} (m : Handler A) : Type 0 where
  pub at : (w : World) → Extends w (m w).1

pub Keeps-pure : {A : Type 0} → (a : A) → Keeps (pure a)
unfolding pure
Keeps-pure a = record { at = Extends-refl }

pub Keeps-reply : {A : Type 0} → (r : Response) → Keeps (reply {A = A} r)
unfolding reply
Keeps-reply r = record { at = Extends-refl }

pub Keeps-require : {A : Type 0} → (o : Option A) (r : Response) → Keeps (require o r)
unfolding require
Keeps-require none r = Keeps-reply r
Keeps-require (some a) r = Keeps-pure a

pub Keeps-guard : (b : Bool) (r : Response) → Keeps (guard b r)
unfolding guard
Keeps-guard true r = Keeps-pure tt
Keeps-guard false r = Keeps-reply r

pub Keeps-get_db : Keeps get_db
unfolding get_db
Keeps-get_db = record { at = Extends-refl }

pub Keeps-count_metric : (f : Metrics → Metrics) → Keeps (count_metric f)
unfolding count_metric
Keeps-count_metric f = record {
  at = λ w. record {
    connections = Alike-refl w.db.connections;
    providers = refl;
    tokens = λ h. h;
    audit_events = ([], sym (append-nil w.db.audit_events));
  };
}

Keeps-continue :
    {A B : Type 0}
    → (r : Result Response A) (f : A → Handler B) → ((a : A) → Keeps (f a))
    → (w : World) → Extends w (continue r f w).1
Keeps-continue (ok a) f k w = (k a).at w
Keeps-continue (err r) f k w = Extends-refl w

pub Keeps-bind :
    {A B : Type 0}
    → (m : Handler A) (f : A → Handler B) → Keeps m
    → ((a : A) → Keeps (f a))
    → Keeps (m >>= f)
unfolding ◌>>=◌
Keeps-bind m f km kf = record {
  at = λ w.
      let (r, w') = m w in
      Extends-trans w w' (continue r f w').1 (km.at w) (Keeps-continue r f kf w');
}

pub Keeps-then :
    {A B : Type 0} → (m : Handler A) (k : Handler B) → Keeps m → Keeps k → Keeps (m >> k)
unfolding ◌>>◌
Keeps-then m k km kk = Keeps-bind m (λ _. k) km (λ _. kk)

pub Keeps-if :
    {A : Type 0} → (b : Bool) (m n : Handler A) → Keeps m → Keeps n → Keeps (if b then m else n)
Keeps-if true m n km kn = km
Keeps-if false m n km kn = kn

pub Keeps-log_audit_event :
    (config : Config) (faults : Faults) (id : Option ℕ) (kind : String) (details : Assoc String)
    → Keeps (log_audit_event config faults id kind details)
unfolding log_audit_event
Keeps-log_audit_event config faults id kind details = record {
  at = λ w. elim (Bool-cases config.audit) [
    | inr off ↦ rw off (Extends-refl w)
    | inl on ↦ elim (Bool-cases (faults insert_audit)) [
      | inl failed ↦ rw (on, failed) (Extends-refl w)
      | inr fine ↦
          rw (on, fine)
            (record {
              connections = Alike-refl w.db.connections;
              providers = refl;
              tokens = λ h. h;
              audit_events = (_, refl);
            })
    ]
  ];
}

pub Keeps-update_connection_status :
    (faults : Faults) (id : ℕ) (status : String)
    → (status == "pending") ≡ false
    → Keeps (update_connection_status faults id status)
unfolding update_connection_status
Keeps-update_connection_status faults id status other = record {
  at = λ w. elim (Bool-cases (faults update_status)) [
    | inl failed ↦ rw failed (Extends-refl w)
    | inr fine ↦ rw fine (record {
      connections = Alike-set_status id status w.db.connections other;
      providers = refl;
      tokens = λ h. h;
      audit_events = ([], sym (append-nil w.db.audit_events));
    })
  ];
}

pub Keeps-store_tokens :
    (config : Config) (out : Outside) (faults : Faults) (id : ℕ) (tokens : Assoc Value)
    → Keeps (store_tokens config out faults id tokens)
unfolding store_tokens
Keeps-store_tokens config out faults id tokens = record {
  at = λ w. elim (Option-cases (out.to_json tokens)) [
    | inl failed ↦ rw (failed, store_tokens) (Extends-refl w)
    | inr (text, written) ↦ elim (Option-cases (encrypt out config.encryption_key text)) [
      | inl failed ↦ rw (written, failed, store_tokens) (Extends-refl w)
      | inr (sealed, e) ↦ elim (Bool-cases (faults upsert_token)) [
        | inl failed ↦ rw (written, e, failed, store_tokens) (Extends-refl w)
        | inr fine ↦
            rw (written, e, fine, store_tokens)
              (record {
                connections = Alike-refl w.db.connections;
                providers = refl;
                tokens = IsUnique-upsert_token_row _ w.db.tokens;
                audit_events = ([], sym (append-nil w.db.audit_events));
              })
      ]
    ]
  ];
}

pub Keeps-require_audited :
    {A : Type 0}
    → (config : Config) (faults : Faults) (o : Option A) (id : Option ℕ) (kind : String)
      (r : Response)
    → Keeps (require_audited config faults o id kind r)
unfolding require_audited
Keeps-require_audited config faults none id kind r =
    Keeps-then _ _ (Keeps-log_audit_event config faults id kind []) (Keeps-reply r)
Keeps-require_audited config faults (some a) id kind r = Keeps-pure a

pub ruleset keeps_rules = (
  Keeps-pure, Keeps-reply, Keeps-require, Keeps-guard, Keeps-get_db, Keeps-count_metric, Keeps-bind,
  Keeps-then, Keeps-if, Keeps-log_audit_event, Keeps-update_connection_status, Keeps-store_tokens,
  Keeps-require_audited,
)
