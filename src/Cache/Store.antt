-- ===== src/Cache/Store.antt =====
-- cache/store.py and cache/keys.py. A reading of `monotonic()` is an argument, in ticks; a TTL is
-- a number of ticks, 0 standing for any that is not positive; a TTL that is no number (NaN) and the rounding of floats
-- are not modelled. Values are copied in and out
-- (`deepcopy`), so an entry is never shared with a caller. SHA-256 is a parameter.
use asante_secure_multi_agen.Prelude.{
  ℕ, ◌+◌, ◌-◌, String, Bool, true, false, Option, none, some, [], ◌∷◌, leb, if◌then◌else◌, length,
  fstring,
}
use asante_secure_multi_agen.Prelude.Dict.{Dict, get, put, remove}
use asante_secure_multi_agen.Prelude.Exec.{value_error, Action, ◌>>◌, modify, raise_if}

pub record CacheLookup (V : Type 0) : Type 0 where
  pub hit : Bool
  pub value : Option V
  pub age_seconds : ℕ
  pub expired : Bool

pub record CacheEntry (V : Type 0) : Type 0 where
  pub value : V
  pub created_at : ℕ
  pub expires_at : ℕ

pub record InMemoryCacheStore (V : Type 0) : Type 0 where
  pub entries : Dict (CacheEntry V)
  pub get_calls : ℕ

module _ {V : Type 0} where
  unfoldable pub size : InMemoryCacheStore V → ℕ
  size c = length c.entries

  abbrev pub missed : CacheLookup V
  missed = record { hit = false; value = none; age_seconds = 0; expired = false }

  -- `max(0.0, now - entry.created_at)` is the truncated difference.
  abbrev pub live_or_evict :
      String
      → ℕ
      → InMemoryCacheStore V
      → Option (CacheEntry V)
      → CacheLookup V × InMemoryCacheStore V
  live_or_evict key now c none = (missed, c)
  live_or_evict key now c (some e) =
      let age = now - e.created_at in
      if leb e.expires_at now
      then (
        record { hit = false; value = none; age_seconds = age; expired = true },
        record c { entries = remove c.entries key },
      )
      else (record { hit = true; value = some e.value; age_seconds = age; expired = false }, c)

  -- `get`
  unfoldable pub get_entry :
      String → ℕ → InMemoryCacheStore V → CacheLookup V × InMemoryCacheStore V
  get_entry key now c =
      live_or_evict key now (record c { get_calls = c.get_calls + 1 }) (get c.entries key)

  -- `put`
  unfoldable pub put_entry : String → V → ℕ → ℕ → Action (InMemoryCacheStore V) Unit
  put_entry key value ttl_seconds now = do
    raise_if (leb ttl_seconds 0) (value_error "ttl_seconds must be greater than zero")
    modify (λ c. record c {
      entries =
          put c.entries key
            (record { value = value; created_at = now; expires_at = now + ttl_seconds });
    })

  unfoldable pub delete_entry : String → InMemoryCacheStore V → InMemoryCacheStore V
  delete_entry key c = record c { entries = remove c.entries key }

  unfoldable pub clear_entries : InMemoryCacheStore V → InMemoryCacheStore V
  clear_entries c = record c { entries = [] }

abbrev pub schema_version : String
schema_version = "reservation-read-v1"

unfoldable pub build_reservation_cache_key : (String → String) → String → String → String
build_reservation_cache_key sha256 reservation_id version = fstring (
    "reservation:"
    ∷ sha256 (fstring (version ∷ "\nreservation.read\nreservation:" ∷ reservation_id ∷ []))
    ∷ [])
