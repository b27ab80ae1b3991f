-- ===== src/Broker/Caching/Laws.antt =====
-- nexus-broker/pkg/caching/client.go: what a cached answer does to later requests, and to Discover.
use nexus_framework.Prelude.{
  ℕ, ◌+◌, ◌<◌, String, false, ◌≡◌, refl, sym, subst, ap, ◌∙◌, Option, none, some, ◌==◌, arith,
}
use nexus_framework.Prelude.Text.{◌<>◌, trim_space, trim_right_char}
use nexus_framework.Prelude.Maps.{Assoc, lookup, lookup-insert_self}
use nexus_framework.Broker.Handler.{HttpAnswer, answered}
use nexus_framework.Json.{Value}
use nexus_framework.Broker.Discovery.{UrlParts, discover}
use nexus_framework.Broker.Caching.{
  CacheEntry, CachingTransport, Cached, cache_get, cache_set, read_back, stored, fetched, looked_up,
  round_trip, is_redirect, followed, client_get,
}

module _ {S : Type 0} where
  -- The entry of a URL, with its expiry.
  abbrev pub Holds : String → String → ℕ → Cached S → Type 0
  Holds url dumped expires c =
      lookup ("http:" <> url) c.entries ≡ some (record { dumped = dumped; expires = expires })

  cache_get_held :
      (t : CachingTransport S) (key dumped : String) (expires : ℕ) (entries : Assoc CacheEntry)
      → lookup key entries ≡ some (record { dumped = dumped; expires = expires })
      → t.now < expires
      → t.get_fails ≡ false
      → cache_get t key entries ≡ some dumped
  unfolding cache_get
  cache_get_held t key dumped expires entries entry fresh works = ground arith

  -- A held answer is given to every GET before it expires, and nothing is asked of the servers.
  pub round_trip-Holds :
      (t : CachingTransport S) (url text dumped : String) (status expires : ℕ) (c : Cached S)
      → Holds url dumped expires c
      → t.read dumped ≡ some (status, text)
      → t.now < expires
      → t.get_fails ≡ false
      → round_trip t "GET" url c ≡ (answered status text, c)
  unfolding round_trip
  round_trip-Holds t url text dumped status expires c entry reads fresh works =
      ap (λ o. looked_up t url o c)
        (cache_get_held t ("http:" <> url) dumped expires c.entries entry fresh works)
      ∙ ap (λ o. (read_back t o, c)) reads

  lookup-cache_set :
      (t : CachingTransport S) (key dumped : String) (entries : Assoc CacheEntry)
      → t.set_fails ≡ false
      → lookup key (cache_set t key dumped entries)
        ≡ some (record { dumped = dumped; expires = t.now + t.ttl })
  unfolding cache_set
  lookup-cache_set t key dumped entries works = rw works (lookup-insert_self key _ entries)

  -- A GET that misses the cache and that is answered leaves the answer in the cache.
  pub Holds-round_trip :
      (t : CachingTransport S) (url text : String) (status : ℕ) (c : Cached S)
      → (dumped : String) → t.dump status text ≡ some dumped
      → t.read dumped ≡ some (status, text)
      → cache_get t ("http:" <> url) c.entries ≡ none
      → (t.transport "GET" url c.servers).0 ≡ answered status text
      → t.set_fails ≡ false
      → ((round_trip t "GET" url c).0 ≡ answered status text)
        × Holds url dumped (t.now + t.ttl) (round_trip t "GET" url c).1
  unfolding round_trip cache_set
  Holds-round_trip t url text status c dumped dumps reads miss asked works =
      let s = (t.transport "GET" url c.servers).1 in
      let c' : Cached S = record c { servers = s } in
      let trip : round_trip t "GET" url c ≡ stored t ("http:" <> url) (some dumped) c' =
        ap (λ o. looked_up t url o c) miss
        ∙ ap (λ a. fetched t ("http:" <> url) a c') asked
        ∙ ap (λ o. stored t ("http:" <> url) o c') dumps in
      (
        ap (λ r. r.0) trip ∙ ap (read_back t) reads,
        subst (λ r. Holds url dumped (t.now + t.ttl) r.1) (sym trip)
            (lookup-cache_set t ("http:" <> url) dumped c.entries works),
      )

abbrev pub metadata_url : String → String
metadata_url issuer =
    trim_right_char b'/' (trim_space issuer) <> "/.well-known/openid-configuration"

discover_at :
    (parse : String → Option UrlParts) (fetch : String → HttpAnswer)
    (of_json : String → Option (Assoc Value)) (issuer auth_url : String) (answer : HttpAnswer)
    → (trim_space issuer == "") ≡ false
    → fetch (metadata_url issuer) ≡ answer
    → discover parse fetch of_json issuer auth_url
      ≡ discover parse (λ _. answer) of_json issuer auth_url
unfolding discover
discover_at parse fetch of_json issuer auth_url answer set asked = rw set (rw set (rw asked refl))

module _ {S : Type 0} (follow : String → ℕ → String → Cached S → HttpAnswer × Cached S) where
  client_get_plain :
      (t : CachingTransport S) (url text : String) (status : ℕ) (c : Cached S)
      → is_redirect status ≡ false
      → (round_trip t "GET" url c).0 ≡ answered status text
      → client_get follow t url c ≡ round_trip t "GET" url c
  unfolding client_get
  client_get_plain t url text status c plain got =
      let c' = (round_trip t "GET" url c).1 in
      let whole : round_trip t "GET" url c ≡ (answered status text, c') = cc got in
      ap (followed follow url) whole ∙ rw plain (sym whole)

  -- Discover through the cache, for an issuer that is not blank. Once the server has answered the
  -- request for the metadata, with a status that is not a redirect, and the answer is stored, every
  -- Discover for the issuer before the entry expires gives what that first answer gives and asks no
  -- server, whatever the servers would answer by then; a failure is kept as well. The conditions are
  -- that the first request missed the cache, that DumpResponse and ReadResponse give the answer
  -- back, and that Redis does not fail.
  pub discover-round_trip :
      (t later : CachingTransport S) (c : Cached S) (parse : String → Option UrlParts)
      (of_json : String → Option (Assoc Value)) (issuer auth_url text dumped : String) (status : ℕ)
      → (trim_space issuer == "") ≡ false
      → is_redirect status ≡ false
      → cache_get t ("http:" <> metadata_url issuer) c.entries ≡ none
      → (t.transport "GET" (metadata_url issuer) c.servers).0 ≡ answered status text
      → t.dump status text ≡ some dumped
      → t.read dumped ≡ some (status, text)
      → t.set_fails ≡ false
      → later.read dumped ≡ some (status, text)
      → later.get_fails ≡ false
      → later.now < t.now + t.ttl
      → let after = (client_get follow t (metadata_url issuer) c).1 in
        (discover parse (λ url. (client_get follow later url after).0) of_json issuer auth_url
          ≡ discover parse (λ url. answered status text) of_json issuer auth_url)
        × ((client_get follow later (metadata_url issuer) after).1 ≡ after)
  discover-round_trip t later c parse of_json issuer auth_url text dumped status set plain miss
        asked dumps reads works rereads gets fresh =
      let url = metadata_url issuer in
      let after = (client_get follow t url c).1 in
      let (first, held) =
        Holds-round_trip t url text status c dumped dumps reads miss asked works in
      let same : client_get follow t url c ≡ round_trip t "GET" url c =
        client_get_plain t url text status c plain first in
      let held_after : Holds url dumped (t.now + t.ttl) after =
        subst (λ r. Holds url dumped (t.now + t.ttl) r.1) (sym same) held in
      let trip : round_trip later "GET" url after ≡ (answered status text, after) =
        round_trip-Holds later url text dumped status (t.now + t.ttl) after held_after rereads fresh
          gets in
      let again : client_get follow later url after ≡ (answered status text, after) =
        client_get_plain later url text status after plain (ap (λ r. r.0) trip) ∙ trip in
      (
        discover_at parse (λ u. (client_get follow later u after).0) of_json issuer auth_url
            (answered status text) set (ap (λ r. r.0) again),
        ap (λ r. r.1) again,
      )
