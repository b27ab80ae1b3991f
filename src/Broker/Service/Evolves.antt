-- ===== src/Broker/Service/Evolves.antt =====
-- nexus-broker/pkg/handlers: what the events of a broker do to its database, with new connections and
-- new providers.
use nexus_framework.Prelude.{
  ℕ, ◌≡◌, refl, ap, sym, ◌∙◌, ◌⊎◌, inl, inr, true, false, Option, none, some, List, [], ◌∷◌, ◌++◌,
  ◌=?◌, Result, ok, err, Bool-cases,
}
use nexus_framework.Broker.Db.{Connection, Provider, AuditEvent, find_connection}
use nexus_framework.Broker.Db.Laws.{IsUnique}
use nexus_framework.Broker.Handler.{Response, World, Handler, continue, ◌>>=◌, ◌>>◌}
use nexus_framework.Broker.Handler.Keeps.{
  Alike, Extends, is_pending, Keeps, append-nil, append_assoc,
}

-- What becomes of the row of an identifier: a connection stays, the same but for its status, which
-- does not become "pending"; one that was not there may come if the identifier is drawn.
abbrev pub Becomes : Type 0 → Option Connection → Option Connection → Type 0
Becomes Drawn none none = Unit
Becomes Drawn none (some d) = Drawn
Becomes Drawn (some c) none = ⊥
Becomes Drawn (some c) (some d) =
    (d ≡ record c { status = d.status }) × (is_pending d ≡ true → is_pending c ≡ true)

-- A later world, where some identifiers are drawn and the providers may have been changed.
pub record Evolves (Drawn : ℕ → Type 0) (Changed : Type 0) (w w' : World) : Type 0 where
  pub connections :
      (id : ℕ)
      → Becomes
          (Drawn id)
          (find_connection id w.db.connections)
          (find_connection id w'.db.connections)
  pub providers : (w'.db.providers ≡ w.db.providers) ⊎ Changed
  pub tokens : IsUnique w.db.tokens → IsUnique w'.db.tokens
  pub audit_events : (more : List AuditEvent) × (w'.db.audit_events ≡ w.db.audit_events ++ more)

pub Becomes-refl : (Drawn : Type 0) (o : Option Connection) → Becomes Drawn o o
Becomes-refl Drawn none = tt
Becomes-refl Drawn (some c) = (refl, λ h. h)

Becomes-trans :
    (A B C : Type 0) (a b c : Option Connection)
    → (A → C)
    → (B → C)
    → Becomes A a b
    → Becomes B b c
    → Becomes C a c
Becomes-trans A B C none none none f g h k = tt
Becomes-trans A B C none none (some z) f g h k = g k
Becomes-trans A B C none (some y) none f g h k = absurd k
Becomes-trans A B C none (some y) (some z) f g h k = f h
Becomes-trans A B C (some x) none c f g h k = absurd h
Becomes-trans A B C (some x) (some y) none f g h k = absurd k
Becomes-trans A B C (some x) (some y) (some z) f g (h, p) (k, q) = (cc, λ e. p (q e))

pub Alike-Becomes :
    (Drawn : ℕ → Type 0) (l m : List Connection)
    → Alike l m
    → (id : ℕ) → Becomes (Drawn id) (find_connection id l) (find_connection id m)
unfolding find_connection
Alike-Becomes Drawn [] [] h id = tt
Alike-Becomes Drawn [] (d ∷ m) h id = absurd h
Alike-Becomes Drawn (c ∷ l) [] h id = absurd h
Alike-Becomes Drawn (c ∷ l) (d ∷ m) (e, f, hs) id =
    let same : d.id ≡ c.id = ap (λ x. x.id) e in
    elim (Bool-cases (c.id =? id)) [
      | inl here ↦
          let there : (d.id =? id) ≡ true = ap (λ n. n =? id) same ∙ here in
          rw here (rw there (e, f))
      | inr other ↦
          let there : (d.id =? id) ≡ false = ap (λ n. n =? id) same ∙ other in
          rw other (rw there (Alike-Becomes Drawn l m hs id))
    ]

pub Evolves-refl : (Drawn : ℕ → Type 0) (Changed : Type 0) (w : World) → Evolves Drawn Changed w w
Evolves-refl Drawn Changed w = record {
  connections = λ id. Becomes-refl (Drawn id) (find_connection id w.db.connections);
  providers = inl refl;
  tokens = λ h. h;
  audit_events = ([], sym (append-nil w.db.audit_events));
}

either_changed :
    {A B C : Type 0} {x y z : List Provider}
    → (A → C)
    → (B → C)
    → (y ≡ x) ⊎ A
    → (z ≡ y) ⊎ B
    → (z ≡ x) ⊎ C
either_changed f g (inl h) (inl k) = inl (k ∙ h)
either_changed f g (inl h) (inr b) = inr (g b)
either_changed f g (inr a) k = inr (f a)

-- Two stretches of a run, each with its drawn identifiers, make one.
pub Evolves-trans :
    (A B C : ℕ → Type 0) (P Q R : Type 0) (a b c : World)
    → ((id : ℕ) → A id → C id)
    → ((id : ℕ) → B id → C id)
    → (P → R)
    → (Q → R)
    → Evolves A P a b
    → Evolves B Q b c
    → Evolves C R a c
Evolves-trans A B C P Q R a b c f g p q h k = record {
  connections = λ id.
      Becomes-trans (A id) (B id) (C id) (find_connection id a.db.connections)
        (find_connection id b.db.connections) (find_connection id c.db.connections) (f id) (g id)
        (h.connections id) (k.connections id);
  providers = either_changed p q h.providers k.providers;
  tokens = λ u. k.tokens (h.tokens u);
  audit_events =
      let (m, e) = h.audit_events in
      let (n, d) = k.audit_events in
      (m ++ n, d ∙ ap (λ l. l ++ n) e ∙ append_assoc a.db.audit_events m n);
}

pub Extends-Evolves :
    (Drawn : ℕ → Type 0) (Changed : Type 0) (w w' : World)
    → Extends w w'
    → Evolves Drawn Changed w w'
Extends-Evolves Drawn Changed w w' h = record {
  connections = Alike-Becomes Drawn w.db.connections w'.db.connections h.connections;
  providers = inl h.providers;
  tokens = h.tokens;
  audit_events = h.audit_events;
}

-- A handler after which the world has evolved, with the drawn identifiers; it changes no provider.
pub record Grows (Drawn : ℕ → Type 0) {A : Type 0} (m : Handler A) : Type 0 where
  pub at : (w : World) → Evolves Drawn ⊥ w (m w).1

module _ (Drawn : ℕ → Type 0) where
  pub Grows-Keeps : {A : Type 0} (m : Handler A) → Keeps m → Grows Drawn m
  Grows-Keeps m h = record { at = λ w. Extends-Evolves Drawn ⊥ w (m w).1 (h.at w) }

  Grows-continue :
      {A B : Type 0} (r : Result Response A) (f : A → Handler B)
      → ((a : A) → Grows Drawn (f a))
      → (w : World) → Evolves Drawn ⊥ w (continue r f w).1
  Grows-continue (ok a) f k w = (k a).at w
  Grows-continue (err r) f k w = Evolves-refl Drawn ⊥ w

  pub Grows-bind :
      {A B : Type 0} (m : Handler A) (f : A → Handler B)
      → Grows Drawn m
      → ((a : A) → Grows Drawn (f a))
      → Grows Drawn (m >>= f)
  unfolding ◌>>=◌
  Grows-bind m f h k = record {
    at = λ w.
        Evolves-trans Drawn Drawn Drawn ⊥ ⊥ ⊥ w (m w).1 (continue (m w).0 f (m w).1).1 (λ id d. d)
          (λ id d. d) (λ x. x) (λ x. x) (h.at w) (Grows-continue (m w).0 f k (m w).1);
  }

  pub Grows-then :
      {A B : Type 0} (m : Handler A) (k : Handler B)
      → Grows Drawn m
      → Grows Drawn k
      → Grows Drawn (m >> k)
  unfolding ◌>>◌
  Grows-then m k h g = Grows-bind m (λ _. k) h (λ _. g)
