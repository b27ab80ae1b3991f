-- ===== src/Bridge/Credentials/Herd.antt =====
-- nexus-bridge/grpc_credentials.go: what the double-checked cache guarantees.
use nexus_framework.Prelude.{
  suc, ◌≡◌, ◌⊎◌, inl, inr, refl, sym, ◌∙◌, false, Option, none, some, List, [], ◌∷◌, map, arith,
  Result, ok, err, Option-cases,
}
use nexus_framework.Prelude.Int.{ℤ}
use nexus_framework.Strategy.{Token}
use nexus_framework.Bridge.Errors.{GoError}
use nexus_framework.Bridge.Credentials.{
  Cache, is_expired, usable, fetch, locked_part, get_valid_token, locked_parts,
}

-- A token that holds at every time of a list.
abbrev pub HoldsAt : ℤ → Token → List ℤ → Type 0
HoldsAt buffer t [] = Unit
HoldsAt buffer t (now ∷ later) = (is_expired buffer now t ≡ false) × HoldsAt buffer t later

abbrev pub all_ok : Token → List ℤ → List (Result GoError Token)
all_ok t times = map (λ _. ok t) times

module _ (buffer now : ℤ) (c : Cache) (t : Token) where
  locked_part_hit :
      c.cached_token ≡ some t
      → is_expired buffer now t ≡ false
      → locked_part buffer now c ≡ (ok t, c)
  unfolding locked_part usable
  locked_part_hit e h = ground arith

  locked_part_miss :
      (rest : List (Result GoError Token))
      → usable buffer now c.cached_token ≡ none
      → c.answers ≡ ok t ∷ rest
      → locked_part buffer now c
        ≡ (ok t, record { cached_token = some t; answers = rest; fetches = suc c.fetches })
  unfolding locked_part fetch
  locked_part_miss rest e h = ground arith

-- With a good token in the cache every caller gets it, and nothing changes.
locked_parts_hit :
    (buffer : ℤ) (t : Token) (times : List ℤ) (c : Cache)
    → c.cached_token ≡ some t
    → HoldsAt buffer t times
    → locked_parts buffer times c ≡ (all_ok t times, c)
unfolding locked_parts
locked_parts_hit buffer t [] c e h = refl
locked_parts_hit buffer t (now ∷ later) c e (h, hs) =
    rw (locked_part_hit buffer now c t e h, locked_parts_hit buffer t later c e hs)

-- However many callers found the cached token missing or expired, one fetch serves them all: if
-- the provider answers with a token that holds at the times of the later callers, every caller
-- gets that token, it is cached, and the provider was asked once.
pub locked_parts_herd :
    (buffer now : ℤ) (later : List ℤ) (c : Cache) (t : Token) (rest : List (Result GoError Token))
    → usable buffer now c.cached_token ≡ none
    → c.answers ≡ ok t ∷ rest
    → HoldsAt buffer t later
    → locked_parts buffer (now ∷ later) c ≡ (
      ok t ∷ all_ok t later,
      record { cached_token = some t; answers = rest; fetches = suc c.fetches },
    )
unfolding locked_parts
locked_parts_herd buffer now later c t rest e a h = rw (
  locked_part_miss buffer now c t rest e a,
  locked_parts_hit buffer t later
      (record { cached_token = some t; answers = rest; fetches = suc c.fetches }) refl h,
)

usable_sound :
    (buffer now : ℤ) (o : Option Token) (t : Token)
    → usable buffer now o ≡ some t
    → (o ≡ some t) × (is_expired buffer now t ≡ false)
unfolding usable
usable_sound buffer now none t h = cc
usable_sound buffer now (some x) t h = ground arith

fetch_ok :
    (c c' : Cache) (t : Token)
    → fetch c ≡ (ok t, c')
    → (c'.cached_token ≡ some t) × (c'.fetches ≡ suc c.fetches)
unfolding fetch
fetch_ok c c' t h = ground arith

fetch_error :
    (c c' : Cache) (e : GoError)
    → fetch c ≡ (err e, c')
    → (c'.cached_token ≡ c.cached_token) × (c'.fetches ≡ suc c.fetches)
unfolding fetch
fetch_error c c' e h = ground arith

get_valid_token_miss :
    (buffer now : ℤ) (c : Cache)
    → usable buffer now c.cached_token ≡ none
    → get_valid_token buffer now c ≡ fetch c
unfolding get_valid_token locked_part
get_valid_token_miss buffer now c miss = ground (arith, miss)

get_valid_token_hit :
    (buffer now : ℤ) (c : Cache) (x : Token)
    → usable buffer now c.cached_token ≡ some x
    → get_valid_token buffer now c ≡ (ok x, c)
unfolding get_valid_token
get_valid_token_hit buffer now c x hit = ground (arith, hit)

-- A call that succeeds returns the cached token, which has not expired, without asking the
-- provider and without changing the cache; or there was no such token, and it has asked the
-- provider once and returns what it has cached. A call that fails has asked once and leaves the
-- cached token in place.
pub get_valid_token_lem :
    (buffer now : ℤ) (c c' : Cache)
    → ((t : Token)
        → get_valid_token buffer now c ≡ (ok t, c')
        → ((c.cached_token ≡ some t) × (is_expired buffer now t ≡ false) × (c' ≡ c))
          ⊎ ((usable buffer now c.cached_token ≡ none)
              × (c'.cached_token ≡ some t)
              × (c'.fetches ≡ suc c.fetches)))
      × ((e : GoError)
          → get_valid_token buffer now c ≡ (err e, c')
          → (c'.cached_token ≡ c.cached_token) × (c'.fetches ≡ suc c.fetches))
get_valid_token_lem buffer now c c' = elim (Option-cases (usable buffer now c.cached_token)) [
  | inl miss ↦
      let same = get_valid_token_miss buffer now c miss in
      (
        λ t h. let (kept, asked) = fetch_ok c c' t (sym same ∙ h) in inr (miss, kept, asked),
        λ e h. fetch_error c c' e (sym same ∙ h),
      )
  | inr (x, hit) ↦
      let same = get_valid_token_hit buffer now c x hit in
      let (cached, fresh) = usable_sound buffer now c.cached_token x hit in
      (λ t h. inl (ground (arith, same, cached, fresh)), λ e h. absurd (cc (sym same ∙ h)))
]
