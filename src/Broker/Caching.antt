-- ===== src/Broker/Caching.antt =====
-- nexus-broker/pkg/caching/client.go: the HTTP transport that keeps answers in Redis. Redis is a map
-- of texts with an expiry, either operation of which may fail; the real transport, DumpResponse and
-- ReadResponse are arguments. An answer is its status and its text.
pub mod Laws
use nexus_framework.Prelude.{
  ℕ, ◌+◌, String, Bool, true, false, ◌||◌, ◌=?◌, Option, none, some, ◌==◌, ltb, if◌then◌else◌,
}
use nexus_framework.Prelude.Text.{◌<>◌}
use nexus_framework.Prelude.Maps.{Assoc, lookup, insert}
use nexus_framework.Broker.Handler.{HttpAnswer, unreachable, answered}

pub record CacheEntry : Type 0 where
  pub dumped : String
  pub expires : ℕ

-- The transport at one moment, over the states S of the servers.
pub record CachingTransport (S : Type 0) : Type 0 where
  pub now : ℕ
  pub ttl : ℕ
  pub get_fails : Bool
  pub set_fails : Bool
  pub dump : ℕ → String → Option String
  pub read : String → Option (ℕ × String)
  pub transport : String → String → S → HttpAnswer × S

pub record Cached (S : Type 0) : Type 0 where
  pub entries : Assoc CacheEntry
  pub servers : S

module _ {S : Type 0} (t : CachingTransport S) where
  abbrev unexpired : Option CacheEntry → Option String
  unexpired none = none
  unexpired (some e) = if ltb t.now e.expires then some e.dumped else none

  -- GET of Redis
  unfoldable pub cache_get : String → Assoc CacheEntry → Option String
  cache_get key entries = if t.get_fails then none else unexpired (lookup key entries)

  -- SET of Redis; its error is ignored.
  unfoldable pub cache_set : String → String → Assoc CacheEntry → Assoc CacheEntry
  cache_set key dumped entries =
      if t.set_fails
      then entries
      else insert key (record { dumped = dumped; expires = t.now + t.ttl }) entries

  abbrev pub read_back : Option (ℕ × String) → HttpAnswer
  read_back none = unreachable
  read_back (some (status, text)) = answered status text

  abbrev pub stored : String → Option String → Cached S → HttpAnswer × Cached S
  stored key none c = (unreachable, c)
  stored key (some dumped) c =
      (read_back (t.read dumped), record c { entries = cache_set key dumped c.entries })

  abbrev pub fetched : String → HttpAnswer → Cached S → HttpAnswer × Cached S
  fetched key unreachable c = (unreachable, c)
  fetched key (answered status text) c = stored key (t.dump status text) c

  abbrev pub real_trip : String → String → Cached S → HttpAnswer × Cached S
  real_trip method url c =
      let (answer, after) = t.transport method url c.servers in
      (answer, record c { servers = after })

  abbrev pub missed : String → Cached S → HttpAnswer × Cached S
  missed url c =
      let (answer, after) = real_trip "GET" url c in fetched ("http:" <> url) answer after

  abbrev pub looked_up : String → Option String → Cached S → HttpAnswer × Cached S
  looked_up url (some dumped) c = (read_back (t.read dumped), c)
  looked_up url none c = missed url c

  -- RoundTrip
  unfoldable pub round_trip : String → String → Cached S → HttpAnswer × Cached S
  round_trip method url c =
      if method == "GET"
      then looked_up url (cache_get ("http:" <> url) c.entries) c
      else real_trip method url c

-- The statuses that net/http's client follows to another URL.
abbrev pub is_redirect : ℕ → Bool
is_redirect status =
    status =? 301 || status =? 302 || status =? 303 || status =? 307 || status =? 308

module _ {S : Type 0} (follow : String → ℕ → String → Cached S → HttpAnswer × Cached S) where
  abbrev pub followed : String → HttpAnswer × Cached S → HttpAnswer × Cached S
  followed url (unreachable, c) = (unreachable, c)
  followed url (answered status text, c) =
      if is_redirect status then follow url status text c else (answered status text, c)

  -- client.Do of a GET, for a client on this transport. What net/http does about a redirect is the
  -- argument `follow`.
  unfoldable pub client_get : CachingTransport S → String → Cached S → HttpAnswer × Cached S
  client_get t url c = followed url (round_trip t "GET" url c)
