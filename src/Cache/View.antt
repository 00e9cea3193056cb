-- ===== src/Cache/View.antt =====
-- What a reader can see of the cache: a map whose entries end at their time.
use asante_secure_multi_agen.Prelude.{
  ℕ, ◌+◌, ◌≤◌, ◌<◌, String, ◌≡◌, refl, ◌⊎◌, inl, inr, Option, none, some, arith, ◌==◌, eq_iff, leb,
  if◌then◌else◌, is_some, Bool-cases, Option-cases,
}
use asante_secure_multi_agen.Prelude.Dict.{get, get-put, get-remove}
use asante_secure_multi_agen.Prelude.Exec.{value_error, ok, err}
use asante_secure_multi_agen.Cache.Store.{InMemoryCacheStore, CacheEntry, get_entry, put_entry}

module _ {V : Type 0} where
  abbrev live : ℕ → Option (CacheEntry V) → Option V
  live now none = none
  live now (some e) = if leb e.expires_at now then none else some e.value

  -- The value of a key at a time.
  unfoldable pub view : InMemoryCacheStore V → ℕ → String → Option V
  view c now key = live now (get c.entries key)

  -- A lookup answers with the view of its key, and is a hit exactly if there is a value; it
  -- counts the call, and changes the view of no key at that time or later.
  pub get_entry-view :
      (c : InMemoryCacheStore V) (key : String) (now : ℕ)
      → let (lookup, c') = get_entry key now c in
        (lookup.value ≡ view c now key)
        × (lookup.hit ≡ is_some (view c now key))
        × (c'.get_calls ≡ c.get_calls + 1)
        × ((later : ℕ) (j : String) → now ≤ later → view c' later j ≡ view c later j)
  unfolding get_entry view
  get_entry-view c key now = elim (Option-cases (get c.entries key)) [
    | inl e ↦ rw e (refl, refl, refl, λ later j h. refl)
    | inr (x, e) ↦ rw e (
      ground arith,
      ground arith,
      ground arith,
      λ later j h. ground (arith, e, get-remove c.entries key j, eq_iff key j, h),
    )
  ]

  -- A store with a positive TTL shows the value under its key for that long and no longer, and
  -- changes no other key; with none it raises and changes nothing.
  pub put_entry-view :
      (c : InMemoryCacheStore V) (key : String) (value : V) (ttl now : ℕ)
      → let (result, c') = put_entry key value ttl now c in
        ((ttl ≡ 0)
          × (result ≡ err (value_error "ttl_seconds must be greater than zero"))
          × (c' ≡ c))
        ⊎ ((0 < ttl)
            × (result ≡ ok tt)
            × (c'.get_calls ≡ c.get_calls)
            × ((later : ℕ) (j : String)
                → view c' later j ≡ (
                    if key == j
                    then (if leb (now + ttl) later then none else some value)
                    else view c later j)))
  unfolding put_entry view
  put_entry-view c key value ttl now = elim (Bool-cases (leb ttl 0)) [
    | inl h ↦ rw h (inl (ground arith, refl, refl))
    | inr h ↦ rw h (inr (ground arith, refl, refl, λ later j. rw get-put (ground arith)))
  ]
