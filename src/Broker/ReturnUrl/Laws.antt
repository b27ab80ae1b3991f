-- ===== src/Broker/ReturnUrl/Laws.antt =====
-- nexus-broker/pkg/server/returnurl.go: the URLs that are allowed, by their hosts.
use Prim.Native.Char.{Char, code}
use text.Mathlib.TextLemmas.{nil-append, cons-append}
use text.Mathlib.TextEquality.{Char-path}
use mathlib.Core.Path.{ap₂}
use nexus_framework.Prelude.{
  String, ◌≡◌, ◌≢◌, ◌⊎◌, inl, inr, sym, ap, ◌∙◌, true, some, List, [], ◌∷◌, ◌==◌, eq_iff, arith,
  Bool-cases, Option-cases,
}
use nexus_framework.Prelude.Text.{◌<>◌, has_suffix}
use nexus_framework.Broker.ReturnUrl.{
  Urls, cut_wildcard, matches_domain, is_allowed_host, normal_host, is_return_url_allowed,
}

has_suffix_sound : (s t : String) → has_suffix s t ≡ true → (p : String) × (s ≡ p <> t)
unfolding has_suffix
has_suffix_sound String.[] t h = ("", sym (nil-append t ∙ (eq_iff t "").0 h))
has_suffix_sound (String.◌∷◌ c s) t h = elim (Bool-cases (String.◌∷◌ c s == t)) [
  | inl same ↦ ("", (eq_iff _ t).0 same ∙ sym (nil-append t))
  | inr other ↦
      let (p, e) = has_suffix_sound s t (ground arith) in
      (String.◌∷◌ c p, ap (λ r. String.◌∷◌ c r) e ∙ sym (cons-append c p t))
]

wildcard_parts :
    (c d : Char) (r s : String)
    → cut_wildcard (String.◌∷◌ c (String.◌∷◌ d r)) ≡ some s
    → (code c ≡ b'*') × (code d ≡ b'.') × (r ≡ s)
unfolding cut_wildcard
wildcard_parts c d r s h = ground arith

wildcard-append : (s : String) → "*." <> s ≡ String.◌∷◌ "*" (String.◌∷◌ "." s)
wildcard-append s =
    cons-append "*" "." s
    ∙ ap (λ r. String.◌∷◌ "*" r) (cons-append "." "" s ∙ ap (λ r. String.◌∷◌ "." r) (nil-append s))

cut_wildcard_sound : (a s : String) → cut_wildcard a ≡ some s → a ≡ "*." <> s
unfolding cut_wildcard
cut_wildcard_sound String.[] s h = absurd (cc h)
cut_wildcard_sound (String.◌∷◌ c String.[]) s h = absurd (cc h)
cut_wildcard_sound (String.◌∷◌ c (String.◌∷◌ d r)) s h =
    let (c_star, d_dot, e) = wildcard_parts c d r s h in
    ap₂ (λ x y. String.◌∷◌ x y) (Char-path c "*" c_star)
      (ap₂ (λ x y. String.◌∷◌ x y) (Char-path d "." d_dot) e)
    ∙ sym (wildcard-append s)

-- A domain of the list, or a name below the domain of a wildcard "*.".
abbrev pub Covers : String → String → Type 0
Covers a host =
    (a ≡ host) ⊎ ((p : String) × (suf : String) × (a ≡ "*." <> suf) × (host ≡ p <> "." <> suf))

abbrev pub AnyCovers : List String → String → Type 0
AnyCovers [] host = ⊥
AnyCovers (a ∷ l) host = Covers a host ⊎ AnyCovers l host

matches_domain-Covers : (host a : String) → matches_domain host a ≡ true → Covers a host
unfolding matches_domain
matches_domain-Covers host a h = elim (Bool-cases (a == host)) [
  | inl same ↦ inl ((eq_iff a host).0 same)
  | inr other ↦ elim (Option-cases (cut_wildcard a)) [
    | inl plain ↦ absurd (ground (arith, plain))
    | inr (suf, wild) ↦
        let (p, e) = has_suffix_sound host ("." <> suf) (ground (arith, wild)) in
        inr (p, suf, cut_wildcard_sound a suf wild, e)
  ]
]

is_allowed_host-AnyCovers :
    (host : String) (l : List String) → is_allowed_host host l ≡ true → AnyCovers l host
unfolding is_allowed_host
is_allowed_host-AnyCovers host [] h = absurd (cc h)
is_allowed_host-AnyCovers host (a ∷ l) h = elim (Bool-cases (matches_domain host a)) [
  | inl here ↦ inl (matches_domain-Covers host a here)
  | inr there ↦ inr (is_allowed_host-AnyCovers host l (ground arith))
]

-- With enforcement on, an allowed URL parses, has a host, and its host, without port and in small
-- letters, is an allowed domain or a name below an allowed wildcard domain.
pub is_return_url_allowed_sound :
    (urls : Urls) (raw : String) (domains : List String)
    → is_return_url_allowed urls raw true domains ≡ true
    → (host : String) × (urls.host_of raw ≡ some host)
      × (host ≢ "")
      × AnyCovers domains (normal_host urls host)
unfolding is_return_url_allowed
is_return_url_allowed_sound urls raw domains h = elim (Option-cases (urls.host_of raw)) [
  | inl failed ↦ absurd (ground (arith, failed))
  | inr (host, parsed) ↦ (
    host,
    parsed,
    ground (arith, parsed, eq_iff host ""),
    is_allowed_host-AnyCovers (normal_host urls host) domains (ground (arith, parsed)),
  )
]
