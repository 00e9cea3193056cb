-- ===== src/Tools/Providers.antt =====
-- The in-memory providers of tools/guest_operations.py, tools/guest_credit.py and
-- tools/reservation.py. The first three keep a list of what they made, and a dictionary of it by
-- idempotency key. SHA-256, `uuid4` (as the ten hex digits that are used) and the clock are
-- arguments.
use asante_secure_multi_agen.Prelude.{
  ℕ, ◌+◌, String, true, false, Option, none, some, List, [], ◌∷◌, ◌++◌, fstring,
}
use asante_secure_multi_agen.Prelude.Dict.{Dict, get, put}
use asante_secure_multi_agen.Prelude.Exec.{ok, message, Action, pure, gets, ◌>>=◌, ◌>>◌, modify}
use asante_secure_multi_agen.Values.{text, flag, num, instant, Fields}

-- `MaintenanceWorkOrderStore`, `GuestMessageOutbox` and `GuestCreditLedger` have this state.
pub record KeyedLog (N : Type 0) : Type 0 where
  pub entries : List (Fields N)
  pub by_key : Dict (Fields N)

unfoldable pub operation_key : (String → String) → String → String → String → String → String
operation_key sha256 action task_id reservation_id payload = fstring (
    "operation:"
    ∷ sha256 (fstring (action ∷ "\n" ∷ task_id ∷ "\n" ∷ reservation_id ∷ "\n" ∷ payload ∷ []))
    ∷ [])

module _ {N : Type 0} where
  abbrev pub or_append : String → Fields N → Option (Fields N) → Action (KeyedLog N) (Fields N)
  or_append key entry (some existing) = pure (put existing "deduplicated" (flag true))
  or_append key entry none = do
    modify
        (λ log. record { entries = log.entries ++ entry ∷ []; by_key = put log.by_key key entry })
    pure (put entry "deduplicated" (flag false))

  abbrev pub new_work_order : String → ℕ → String → String → String → String → Fields N
  new_work_order hex now reservation_id category urgency description =
      ("work_order_id", text (fstring ("WO-" ∷ hex ∷ [])))
      ∷ ("reservation_id", text reservation_id)
      ∷ ("category", text category)
      ∷ ("urgency", text urgency)
      ∷ ("description", text description)
      ∷ ("status", text "open")
      ∷ ("created_at", instant now)
      ∷ []

  -- `MaintenanceWorkOrderStore.create`
  unfoldable pub create_work_order :
      String → ℕ → String → String → String → String → String → Action (KeyedLog N) (Fields N)
  create_work_order hex now reservation_id category urgency description idempotency_key = do
    existing ← gets (λ log. get log.by_key idempotency_key)
    or_append idempotency_key (new_work_order hex now reservation_id category urgency description)
        existing

  abbrev pub new_message : String → ℕ → String → String → Fields N
  new_message hex now reservation_id message =
      ("message_id", text (fstring ("MSG-" ∷ hex ∷ [])))
      ∷ ("reservation_id", text reservation_id)
      ∷ ("message", text message)
      ∷ ("status", text "sent")
      ∷ ("sent_at", instant now)
      ∷ []

  -- `GuestMessageOutbox.send`
  unfoldable pub send_message :
      String → ℕ → String → String → String → Action (KeyedLog N) (Fields N)
  send_message hex now reservation_id message idempotency_key = do
    existing ← gets (λ log. get log.by_key idempotency_key)
    or_append idempotency_key (new_message hex now reservation_id message) existing

  abbrev pub new_credit : String → N → String → Fields N
  new_credit reservation_id amount reason =
      ("reservation_id", text reservation_id)
      ∷ ("amount", num amount)
      ∷ ("reason", text reason)
      ∷ ("status", text "issued")
      ∷ []

  -- `GuestCreditLedger.issue`
  unfoldable pub issue : String → N → String → Option String → Action (KeyedLog N) (Fields N)
  issue reservation_id amount reason (some key) = do
    existing ← gets (λ log. get log.by_key key)
    or_append key (new_credit reservation_id amount reason) existing
  issue reservation_id amount reason none = do
    let credit = new_credit reservation_id amount reason
    modify (λ log. record log { entries = log.entries ++ credit ∷ [] })
    pure (put credit "deduplicated" (flag false))

-- `InMemoryReservationProvider`
pub record ReservationProvider (N : Type 0) : Type 0 where
  pub reservations : Dict (Fields N)
  pub calls : ℕ

unfoldable pub read_reservation :
    {N : Type 0} → String → Action (ReservationProvider N) (Option (Fields N))
read_reservation reservation_id p =
    (ok (get p.reservations reservation_id), record p { calls = p.calls + 1 })

-- The reservations that the provider is made with.
abbrev reservation : {N : Type 0} → String → String → String → String → String → Fields N
reservation id guest status check_in check_out =
    ("reservation_id", text id)
    ∷ ("guest_name", text guest)
    ∷ ("property", text "Bandini")
    ∷ ("status", text status)
    ∷ ("check_in", text check_in)
    ∷ ("check_out", text check_out)
    ∷ []

unfoldable pub default_provider : {N : Type 0} → ReservationProvider N
default_provider = record {
  reservations =
      ("R-3001", reservation "R-3001" "Amina N." "confirmed" "2026-10-02" "2026-10-05")
      ∷ ("R-3002", reservation "R-3002" "Jordan K." "confirmed" "2026-10-06" "2026-10-09")
      ∷ ("R-3003", reservation "R-3003" "Maya T." "completed" "2026-09-12" "2026-09-15")
      ∷ [];
  calls = 0;
}
