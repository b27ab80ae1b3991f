-- ===== src/Broker/Config/Offered.antt =====
-- nexus-broker/pkg/config/broker.go: the API keys of a configuration stand in the environment.
use nexus_framework.Prelude.{
  String, Bool, true, false, ◌≡◌, refl, sym, subst, ◌∙◌, ◌⊎◌, inl, inr, List, [], ◌∷◌, ◌++◌, ◌==◌,
  ◌||◌, arith, eq_iff, Bool-cases, if◌then◌else◌,
}
use nexus_framework.Prelude.Text.{trim_space, split}
use nexus_framework.Broker.Access.{is_known_key}
use nexus_framework.Broker.Config.{Sources, listed_keys, allowed_keys}

or_true : {a b : Bool} → (a || b) ≡ true → (a ≡ true) ⊎ (b ≡ true)
or_true {a = true} e = inl refl
or_true {a = false} e = inr e

-- A key stands in a list of entries, but for blanks around it.
abbrev pub Offers : String → List String → Type 0
Offers key [] = ⊥
Offers key (entry ∷ l) = (trim_space entry ≡ key) ⊎ Offers key l

-- A key stands in the environment.
abbrev pub IsOffered : Sources → String → Type 0
IsOffered env key =
    Offers key (split b',' (trim_space (env.getenv "API_KEYS")))
    ⊎ (trim_space (env.getenv "API_KEY") ≡ key)

is_known_key-append :
    (key : String) (l m : List String)
    → is_known_key key (l ++ m) ≡ (is_known_key key l || is_known_key key m)
unfolding is_known_key
is_known_key-append key [] m = refl
is_known_key-append key (k ∷ l) m = ground (arith, is_known_key-append key l m)

is_known_key-listed_keys :
    (key : String) (l : List String) → is_known_key key (listed_keys l) ≡ true → Offers key l
unfolding is_known_key listed_keys
is_known_key-listed_keys key [] e = absurd (ground arith)
is_known_key-listed_keys key (k ∷ l) e =
    ground (arith, is_known_key-listed_keys key l, eq_iff (trim_space k) key)

several_offered :
    (key s : String)
    → is_known_key key (if s == "" then [] else listed_keys (split b',' s)) ≡ true
    → Offers key (split b',' s)
unfolding is_known_key
several_offered key s e = elim (Bool-cases (s == "")) [
  | inl blank ↦ absurd (ground arith)
  | inr set ↦ is_known_key-listed_keys key (split b',' s) (ground arith)
]

single_offered :
    (key s : String) → is_known_key key (if s == "" then [] else s ∷ []) ≡ true → s ≡ key
unfolding is_known_key
single_offered key s e = ground (arith, eq_iff s key)

-- A key that the loaded configuration knows stands in the environment.
pub is_known_key-allowed_keys :
    (env : Sources) (key : String) → is_known_key key (allowed_keys env) ≡ true → IsOffered env key
unfolding allowed_keys
is_known_key-allowed_keys env key e = elim (or_true (sym (is_known_key-append key _ _) ∙ e)) [
  | inl several ↦ inl (several_offered key (trim_space (env.getenv "API_KEYS")) several)
  | inr single ↦ inr (single_offered key (trim_space (env.getenv "API_KEY")) single)
]

listed_keys_known :
    (key : String) (l : List String)
    → (key == "") ≡ false
    → Offers key l
    → is_known_key key (listed_keys l) ≡ true
unfolding is_known_key listed_keys
listed_keys_known key [] set offered = absurd offered
listed_keys_known key (k ∷ l) set (inl here) =
    ground (arith, eq_iff (trim_space k) key, eq_iff (trim_space k) "", eq_iff key "")
listed_keys_known key (k ∷ l) set (inr later) = ground (arith, listed_keys_known key l set later)

several_known :
    (key s : String)
    → (key == "") ≡ false
    → Offers key (split b',' s)
    → is_known_key key (if s == "" then [] else listed_keys (split b',' s)) ≡ true
unfolding split trim_space
several_known key s set offered = elim (Bool-cases (s == "")) [
  | inr given ↦ rw given (listed_keys_known key (split b',' s) set offered)
  | inl blank ↦
      let empty : Offers key (split b',' "") =
        subst (λ x. Offers key (split b',' x)) ((eq_iff s "").0 blank) offered in
      elim empty [
        | inl same ↦
            let blank_key : "" ≡ key = same in absurd (cc (set, (eq_iff key "").1 (sym blank_key)))
        | inr more ↦ absurd more
      ]
]

single_known :
    (key s : String)
    → (key == "") ≡ false
    → s ≡ key
    → is_known_key key (if s == "" then [] else s ∷ []) ≡ true
unfolding is_known_key
single_known key s set same = ground (arith, eq_iff s key, eq_iff s "", eq_iff key "")

abbrev several_keys : Sources → List String
several_keys env =
    let s = trim_space (env.getenv "API_KEYS") in if s == "" then [] else listed_keys (split b',' s)

abbrev single_keys : Sources → List String
single_keys env = let s = trim_space (env.getenv "API_KEY") in if s == "" then [] else s ∷ []

either_true : (a : Bool) {b : Bool} → b ≡ true → (a || b) ≡ true
either_true true e = refl
either_true false e = e

-- A key that stands in the environment and is not empty is known to the loaded configuration.
pub allowed_keys_known :
    (env : Sources) (key : String)
    → (key == "") ≡ false
    → IsOffered env key
    → is_known_key key (allowed_keys env) ≡ true
unfolding allowed_keys
allowed_keys_known env key set (inl several) =
    is_known_key-append key (several_keys env) (single_keys env)
    ∙ rw (several_known key (trim_space (env.getenv "API_KEYS")) set several) refl
allowed_keys_known env key set (inr single) =
    is_known_key-append key (several_keys env) (single_keys env)
    ∙ either_true (is_known_key key (several_keys env))
        (single_known key (trim_space (env.getenv "API_KEY")) set single)
