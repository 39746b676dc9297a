-- ===== src/Cache.antt =====
-- internal/cache/redis.go and internal/cache/keys.go: the cache in front of the timetable store. The
-- Redis server, JSON and gzip are parameters, with what the code relies on as laws.
pub mod Warmer
pub mod Midnight
pub mod Keys
pub mod Fresh
use wabus_backend.Prelude.{
  ◌≡◌, ◌≢◌, ◌⊎◌, ◌+ℤ◌, ◌<ℤ◌, Bool, true, false, Option, none, some, List, [], ◌∷◌, String, ◌<>◌,
}
use wabus_backend.Domain.{Time, Duration}

-- What the server replies to a `GET`: the bytes, `redis.Nil`, or an error.
pub data Reply (B : Type 0) : Type 0 where
  bytes : B → Reply B
  redis_nil : Reply B
  refused : Reply B

-- The calls of the Redis client, on the server's state: each may fail, with false, and may have had
-- its effect all the same. The time is that of the call.
pub record Redis (R B : Type 0) : Type 0 where
  pub set_call : Time → String → B → Duration → R → R × Bool
  pub get_call : Time → String → R → Reply B
  pub del_call : String → R → R × Bool
  pub scan_call : String → R → List String × Bool

-- JSON for the values of one type, and gzip.
pub record Json (A B : Type 0) : Type 0 where
  pub marshal : A → Option B
  pub unmarshal : B → Option A

pub record Gzip (B : Type 0) : Type 0 where
  pub compress : B → Option B
  pub decompress : B → Option B

-- What is written is read back, but for the fields that `shown` clears: those that JSON leaves out.
abbrev pub IsJson : {A B : Type 0} → (A → A) → Json A B → Type 0
IsJson {A} {B} shown j = (a : A) (b : B) → j.marshal a ≡ some b → j.unmarshal b ≡ some (shown a)

abbrev pub IsGzip : {B : Type 0} → Gzip B → Type 0
IsGzip {B} g = (b c : B) → g.compress b ≡ some c → g.decompress c ≡ some b

-- A reply is the value of some earlier `SET` of the key: `Holds r k b` says that the server may still
-- give the value `b` for the key `k`.
pub record IsRedis {R B : Type 0} (redis : Redis R B) (Holds : R → String → B → Type 0)
    : Type 0 where
  pub get-Holds :
      (now : Time) (k : String) (r : R) (b : B) → redis.get_call now k r ≡ bytes b → Holds r k b
  pub set-Holds :
      (now : Time) (k j : String) (b c : B) (ttl : Duration) (r : R)
      → Holds (redis.set_call now k b ttl r).0 j c
      → ((k ≡ j) × (b ≡ c)) ⊎ Holds r j c

-- `KeySyncFull`
abbrev pub key_sync_full : String
key_sync_full = "sync:full"

unfoldable pub key_schedule_today : String → String
key_schedule_today stop_id = "schedule:today:" <> stop_id

unfoldable pub key_schedule_tomorrow : String → String
key_schedule_tomorrow stop_id = "schedule:tomorrow:" <> stop_id

unfoldable pub key_stop_lines : String → String
key_stop_lines stop_id = "lines:" <> stop_id

unfoldable pub key_route_shape : String → String
key_route_shape route_id = "shape:" <> route_id

-- `key`
unfoldable pub cache_key : String → String
cache_key k = "wabus:" <> k

-- `Get`: the bytes, none for nil, or an error.
pub data Fetched (B : Type 0) : Type 0 where
  found : B → Fetched B
  missing : Fetched B
  failed : Fetched B

unfoldable pub fetched : {B : Type 0} → Reply B → Fetched B
fetched (bytes b) = found b
fetched redis_nil = missing
fetched refused = failed

abbrev pub decoded : {A : Type 0} → Option A → Fetched A
decoded none = failed
decoded (some a) = found a

-- The bytes that were fetched are decoded: an error of that is an error.
abbrev pub decode_fetched : {A B : Type 0} → (B → Option A) → Fetched B → Fetched A
decode_fetched decode (found b) = decoded (decode b)
decode_fetched decode missing = missing
decode_fetched decode failed = failed

module _ {R B : Type 0} (redis : Redis R B) where
  unfoldable pub cache_set : Time → String → B → Duration → R → R × Bool
  cache_set now key value ttl r = redis.set_call now (cache_key key) value ttl r

  unfoldable pub cache_get : Time → String → R → Fetched B
  cache_get now key r = fetched (redis.get_call now (cache_key key) r)

  unfoldable pub cache_delete : String → R → R × Bool
  cache_delete key r = redis.del_call (cache_key key) r

  -- The loop of `DeletePattern`, over the keys that the scan gives.
  unfoldable pub delete_loop : List String → Bool → R → R × Bool
  delete_loop [] scanned r = (r, scanned)
  delete_loop (key ∷ keys) scanned r =
      let o = redis.del_call key r in
      let rest = delete_loop keys scanned o.0 in elim o.1 [ true ↦ rest | false ↦ o ]

  unfoldable pub delete_pattern : String → R → R × Bool
  delete_pattern pattern r = let o = redis.scan_call (cache_key pattern) r in delete_loop o.0 o.1 r

  module _ {A : Type 0} (json : Json A B) where
    unfoldable pub set_json : Time → String → A → Duration → R → R × Bool
    set_json now key value ttl r = elim (json.marshal value) [
      | none ↦ (r, false)
      | some data_bytes ↦ cache_set now key data_bytes ttl r
    ]

    unfoldable pub get_json : Time → String → R → Fetched A
    get_json now key r = decode_fetched json.unmarshal (cache_get now key r)

    module _ (gzip : Gzip B) where
      unfoldable pub set_compressed : Time → String → B → Duration → R → R × Bool
      set_compressed now key value ttl r = elim (gzip.compress value) [
        | none ↦ (r, false)
        | some compressed ↦ cache_set now key compressed ttl r
      ]

      unfoldable pub get_compressed : Time → String → R → Fetched B
      get_compressed now key r = decode_fetched gzip.decompress (cache_get now key r)

      unfoldable pub set_json_compressed : Time → String → A → Duration → R → R × Bool
      set_json_compressed now key value ttl r = elim (json.marshal value) [
        | none ↦ (r, false)
        | some data_bytes ↦ set_compressed now key data_bytes ttl r
      ]

      unfoldable pub get_json_compressed : Time → String → R → Fetched A
      get_json_compressed now key r = decode_fetched json.unmarshal (get_compressed now key r)
