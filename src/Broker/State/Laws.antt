-- ===== src/Broker/State/Laws.antt =====
-- nexus-broker/pkg/auth/state.go: what the signed state guarantees.
use Prim.Native.Char.{code}
use text.Mathlib.TextLemmas.{nil-append, cons-append}
use nexus_framework.Prelude.{
  String, ◌≡◌, ◌≢◌, refl, ap, ◌∙◌, some, List, [], ◌∷◌, ◌==◌, eq_iff, eq_refl, if◌then◌else◌, arith,
  ok, err, ◌>>=◌, or_err, Option-cases, inl, inr,
}
use nexus_framework.Prelude.Text.{◌<>◌, split}
use nexus_framework.Prelude.Int.{ℤ}
use nexus_framework.Broker.State.{
  StateData, Codec, two_parts, check_age, check_mac, sign_state, verify_state,
  extract_connection_id, missing_nonce, bad_json,
}

-- A text without the separator.
abbrev pub HasNoDot : String → Type 0
HasNoDot String.[] = Unit
HasNoDot (String.◌∷◌ c s) = (code c ≢ b'.') × HasNoDot s

-- What the code relies on of encoding/json and encoding/base64: they decode what they encode, and
-- the alphabet of the encoding has no dot.
pub record IsLawful (codec : Codec) : Type 0 where
  pub unmarshal-marshal :
      (d : StateData) (s : String) → codec.marshal d ≡ some s → codec.unmarshal s ≡ some d
  pub decode-encode : (s : String) → codec.decode (codec.encode s) ≡ some s
  pub encode-HasNoDot : (s : String) → HasNoDot (codec.encode s)

split_whole : (s : String) → HasNoDot s → split b'.' s ≡ s ∷ []
unfolding split
split_whole String.[] h = refl
split_whole (String.◌∷◌ c s) (h, hs) = rw (split_whole s hs) (ground arith)

dot-append : (t : String) → "." <> t ≡ String.◌∷◌ "." t
dot-append t = cons-append "." "" t ∙ ap (λ r. String.◌∷◌ "." r) (nil-append t)

split_dot : (s t : String) → HasNoDot s → split b'.' (s <> "." <> t) ≡ s ∷ split b'.' t
unfolding split
split_dot String.[] t h = rw (nil-append, dot-append, split)
split_dot (String.◌∷◌ c s) t (h, hs) = rw (cons-append, split, split_dot s t hs) (ground arith)

module _ (codec : Codec) (law : IsLawful codec) where
  split_signed :
      (a b : String)
      → split b'.' (codec.encode a <> "." <> codec.encode b) ≡ codec.encode a ∷ codec.encode b ∷ []
  split_signed a b =
      split_dot (codec.encode a) (codec.encode b) (law.encode-HasNoDot a)
      ∙ ap (λ l. codec.encode a ∷ l) (split_whole (codec.encode b) (law.encode-HasNoDot b))

  -- A reader accepts signed bytes exactly if the MAC under its key is that of the signer.
  verify_signed :
      (key key' : String) (now : ℤ) (d : StateData) (bytes : String)
      → codec.marshal d ≡ some bytes
      → verify_state codec key now
          (codec.encode bytes <> "." <> codec.encode (codec.mac key' bytes))
        ≡ (check_mac (codec.mac key' bytes) (codec.mac key bytes) >>= λ _. check_age now d)
  unfolding verify_state
  verify_signed key key' now d bytes m =
      simp (split_signed, law.decode-encode, law.unmarshal-marshal d bytes m)

  -- A state that the broker signed is read back, with the data that were signed, until it is ten
  -- minutes old, with a codec that decodes what it encodes and encodes without a dot.
  pub verify_state-sign_state :
      (key : String) (now : ℤ) (d : StateData) (s : String)
      → sign_state codec key d ≡ ok s
      → check_age now d ≡ ok d
      → verify_state codec key now s ≡ ok d
  unfolding sign_state
  verify_state-sign_state key now d s h young = elim (Option-cases (codec.marshal d)) [
    | inl failed ↦ absurd (cc (rw failed at h))
    | inr (bytes, m) ↦
        let signature = codec.mac key bytes in
        let e : codec.encode bytes <> "." <> codec.encode signature ≡ s = cc (rw m at h) in
        rw (← e) (verify_signed key key now d bytes m ∙ rw eq_refl young)
  ]

check_age_same : (now : ℤ) (d d' : StateData) → check_age now d ≡ ok d' → d ≡ d'
unfolding check_age
check_age_same now d d' h = ground arith

two_parts_split : (l : List String) (a b : String) → two_parts l ≡ some (a, b) → l ≡ a ∷ b ∷ []
two_parts_split (x ∷ y ∷ []) a b h = ground arith
two_parts_split _ a b h = absurd (cc h)

accepted :
    (codec : Codec) (key : String) (now : ℤ) (bytes signature : String) (d : StateData)
    → (check_mac signature (codec.mac key bytes) >>= λ _.
        or_err (codec.unmarshal bytes) bad_json >>= check_age now)
      ≡ ok d
    → (signature ≡ codec.mac key bytes)
      × ((d' : StateData) × (codec.unmarshal bytes ≡ some d') × (check_age now d' ≡ ok d))
accepted codec key now bytes signature d h = elim (Option-cases (codec.unmarshal bytes)) [
  | inl failed ↦ absurd (ground (arith, failed))
  | inr (d', read) ↦
      ((eq_iff signature (codec.mac key bytes)).0 (ground arith), (d', read, ground (arith, read)))
]

-- What is accepted carries a valid signature under the reader's key, decodes to the data that are
-- returned, and is at most ten minutes old.
pub verify_state_sound :
    (codec : Codec) (key : String) (now : ℤ) (s : String) (d : StateData)
    → verify_state codec key now s ≡ ok d
    → (a : String) × (b : String) × (bytes : String) × (split b'.' s ≡ a ∷ b ∷ [])
      × (codec.decode a ≡ some bytes)
      × (codec.decode b ≡ some (codec.mac key bytes))
      × (codec.unmarshal bytes ≡ some d)
      × (check_age now d ≡ ok d)
unfolding verify_state
verify_state_sound codec key now s d h = elim (Option-cases (two_parts (split b'.' s))) [
  | inl failed ↦ absurd (cc (rw failed at h))
  | inr ((a, b), two) ↦ elim (Option-cases (codec.decode a)) [
    | inl failed ↦ absurd (cc (rw (two, failed) at h))
    | inr (bytes, decoded) ↦ elim (Option-cases (codec.decode b)) [
      | inl failed ↦ absurd (cc (rw (two, decoded, failed) at h))
      | inr (signature, signed) ↦
          let (same, (d', read, young)) =
            accepted codec key now bytes signature d (rw (two, decoded, signed) at h) in
          let e : d' ≡ d = check_age_same now d' d young in
          (
            a,
            b,
            bytes,
            two_parts_split _ a b two,
            decoded,
            rw (← same) signed,
            rw (← e) read,
            rw e at young,
          )
    ]
  ]
]

-- The gateway's reader agrees with the broker's: it returns the nonce of what the broker's reader
-- accepts, refuses an empty nonce, and fails with the same error where that one fails.
pub extract_connection_id-verify_state :
    (codec : Codec) (key : String) (now : ℤ) (s : String)
    → extract_connection_id codec key now s ≡ (
        verify_state codec key now s >>= λ d.
        if d.nonce == "" then err missing_nonce else ok d.nonce)
unfolding extract_connection_id verify_state
extract_connection_id-verify_state codec key now s = ground arith
