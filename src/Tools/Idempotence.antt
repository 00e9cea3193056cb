-- ===== src/Tools/Idempotence.antt =====
-- The stores of tools/guest_operations.py and tools/guest_credit.py under a repeated key.
use asante_secure_multi_agen.Prelude.{
  ℕ, String, ◌≡◌, refl, inl, inr, true, some, eq_refl, Option-cases,
}
use asante_secure_multi_agen.Prelude.Dict.{Dict, get, put, get-put}
use asante_secure_multi_agen.Prelude.Exec.{Result, ok}
use asante_secure_multi_agen.Tools.Providers.{
  KeyedLog, create_work_order, or_append, send_message, issue, new_work_order, new_message,
  new_credit,
}
use asante_secure_multi_agen.Values.{Fields, flag}

module _ {N : Type 0} where
  -- The store has an entry under the key.
  abbrev Has : KeyedLog N → String → Fields N → Type 0
  Has log key entry = get log.by_key key ≡ some entry

  -- The second of two calls under one key: it answers the entry of the first, marked
  -- as deduplicated, and leaves the store as it is.
  abbrev pub Replays : String → KeyedLog N → Result (Fields N) × KeyedLog N → Type 0
  Replays key log r =
      (entry : Fields N) × (Has log key entry)
      × (r ≡ (ok (put entry "deduplicated" (flag true)), log))

  get-put_same :
      (d : Dict (Fields N)) (key : String) (entry : Fields N)
      → get (put d key entry) key ≡ some entry
  get-put_same d key entry = rw get-put (rw (eq_refl key) refl)

  or_append-Replays :
      (key : String) (entry entry' : Fields N) (log : KeyedLog N)
      → let log' = (or_append key entry (get log.by_key key) log).1 in
        Replays key log' (or_append key entry' (get log'.by_key key) log')
  or_append-Replays key entry entry' log = elim (Option-cases (get log.by_key key)) [
    | inl h ↦ rw h (let same = get-put_same log.by_key key entry in (entry, same, rw same refl))
    | inr (first, h) ↦ rw h (first, h, rw h refl)
  ]

  -- Of two calls under one idempotency key, whatever their other arguments are, the second answers
  -- with the entry of the first, marked as deduplicated, and adds nothing: for work orders, guest
  -- messages and credits.
  pub second_call-Replays :
      (key : String) (log : KeyedLog N)
      → ((hex hex' : String) (now now' : ℕ) (id id' cat cat' urg urg' desc desc' : String)
          → let log' = (create_work_order hex now id cat urg desc key log).1 in
            Replays key log' (create_work_order hex' now' id' cat' urg' desc' key log'))
        × ((hex hex' : String) (now now' : ℕ) (id id' said said' : String)
            → let log' = (send_message hex now id said key log).1 in
              Replays key log' (send_message hex' now' id' said' key log'))
        × ((id id' : String) (amount amount' : N) (reason reason' : String)
            → let log' = (issue id amount reason (some key) log).1 in
              Replays key log' (issue id' amount' reason' (some key) log'))
  unfolding create_work_order send_message issue
  second_call-Replays key log = (
    λ hex hex' now now' id id' cat cat' urg urg' desc desc'.
        or_append-Replays key (new_work_order hex now id cat urg desc)
          (new_work_order hex' now' id' cat' urg' desc') log,
    λ hex hex' now now' id id' said said'.
        or_append-Replays key (new_message hex now id said) (new_message hex' now' id' said') log,
    λ id id' amount amount' reason reason'.
        or_append-Replays key (new_credit id amount reason) (new_credit id' amount' reason') log,
  )
