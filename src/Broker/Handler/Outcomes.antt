-- ===== src/Broker/Handler/Outcomes.antt =====
-- nexus-broker/pkg/handlers: what is known where a handler does not return early.
use nexus_framework.Prelude.{
  ℕ, String, ◌≡◌, refl, Bool, true, false, Option, none, some, [], Result, ok, err,
}
use nexus_framework.Broker.Db.{Db, Faults}
use nexus_framework.Broker.Handler.{
  Response, Metrics, count_metric, World, Config, Handler, continue, ◌>>=◌, ◌>>◌, pure, reply,
  require, guard, get_db, require_audited, log_audit_event,
}

-- A handler ends with a value, from one world to another.
abbrev pub Ends : {A : Type 0} → Handler A → World → A → World → Type 0
Ends m w a w' = m w ≡ (ok a, w')

continue-Ends :
    {A B : Type 0} (r : Result Response A) (f : A → Handler B) (v : World) {b : B} {w' : World}
    → continue r f v ≡ (ok b, w')
    → (a : A) × (r ≡ ok a) × (f a v ≡ (ok b, w'))
continue-Ends (ok a) f v h = (a, refl, h)
continue-Ends (err r) f v h = absurd (cc h)

pub bind-Ends :
    {A B : Type 0} (m : Handler A) (f : A → Handler B) (w : World) {b : B} {w' : World}
    → Ends (m >>= f) w b w'
    → (a : A) × (v : World) × Ends m w a v × Ends (f a) v b w'
unfolding ◌>>=◌
bind-Ends m f w h = let (a, e, rest) = continue-Ends (m w).0 f (m w).1 h in (a, (m w).1, cc e, rest)

pub then-Ends :
    {A B : Type 0} (m : Handler A) (k : Handler B) (w : World) {b : B} {w' : World}
    → Ends (m >> k) w b w'
    → (a : A) × (v : World) × Ends m w a v × Ends k v b w'
unfolding ◌>>◌
then-Ends m k w h = bind-Ends m (λ _. k) w h

pub pure-Ends :
    {A : Type 0} (a : A) (w : World) {b : A} {w' : World}
    → Ends (pure a) w b w'
    → (b ≡ a) × (w' ≡ w)
unfolding pure
pure-Ends a w h = (cc h, cc h)

pub require-Ends :
    {A : Type 0} (o : Option A) (r : Response) (w : World) {a : A} {w' : World}
    → Ends (require o r) w a w'
    → (o ≡ some a) × (w' ≡ w)
unfolding require pure reply
require-Ends none r w h = absurd (cc h)
require-Ends (some x) r w h = (cc h, cc h)

pub require_audited-Ends :
    {A : Type 0} (config : Config) (faults : Faults) (o : Option A) (id : Option ℕ) (kind : String)
    (r : Response) (w : World) {a : A} {w' : World}
    → Ends (require_audited config faults o id kind r) w a w'
    → (o ≡ some a) × (w' ≡ w)
unfolding require_audited pure reply
require_audited-Ends config faults none id kind r w h =
    let (u, v, logged, failed) =
      then-Ends (log_audit_event config faults id kind []) (reply r) w h in
    absurd (cc failed)
require_audited-Ends config faults (some x) id kind r w h = (cc h, cc h)

pub guard-Ends :
    (b : Bool) (r : Response) (w : World) {u : Unit {0}} {w' : World}
    → Ends (guard b r) w u w'
    → (b ≡ true) × (w' ≡ w)
unfolding guard pure reply
guard-Ends true r w h = (refl, cc h)
guard-Ends false r w h = absurd (cc h)

pub get_db-Ends : (w : World) {d : Db} {w' : World} → Ends get_db w d w' → (d ≡ w.db) × (w' ≡ w)
unfolding get_db
get_db-Ends w h = (cc h, cc h)

pub reply-Ends :
    {A : Type 0} (r : Response) (w : World) {a : A} {w' : World} → Ends (reply r) w a w' → ⊥
unfolding reply
reply-Ends r w h = cc h

pub count_metric-Ends :
    (f : Metrics → Metrics) (w : World) {u : Unit {0}} {w' : World}
    → Ends (count_metric f) w u w'
    → w'.db ≡ w.db
unfolding count_metric
count_metric-Ends f w h = cc h
