-- ===== src/Approvals/Once.antt =====
-- A credit request is idempotent within its task: one row for its task, reservation and amount.
use asante_secure_multi_agen.Prelude.{
  ℕ, String, ◌≡◌, refl, ◌≢◌, inl, inr, Bool, true, none, some, List, [], ◌∷◌, ◌++◌, arith, eq_refl,
  if◌then◌else◌, Option-cases,
}
use asante_secure_multi_agen.Prelude.Exec.{ok}
use asante_secure_multi_agen.Floats.{Floats}
use asante_secure_multi_agen.Approvals.Table.{Row, select, fetchone, order_asc, insert_asc}
use asante_secure_multi_agen.Approvals.Store.{Table, from_row, ApprovalRecord}
use asante_secure_multi_agen.Approvals.Requests.{
  CreditRequest, is_request, new_row, create_credit_request,
}
use asante_secure_multi_agen.Approvals.Rows.{request_row}

module _ {N : Type 0} where
  fetchone-insert_asc-ne-none :
      (r : Row N) (rows : List (Row N)) → fetchone (insert_asc r rows) ≢ none
  unfolding insert_asc
  fetchone-insert_asc-ne-none r [] h = cc
  fetchone-insert_asc-ne-none r (x ∷ rows) h = ground arith

  empty_of_order_asc : (rows : List (Row N)) → fetchone (order_asc rows) ≡ none → rows ≡ []
  unfolding order_asc
  empty_of_order_asc [] h = refl
  empty_of_order_asc (r ∷ rows) h = absurd (fetchone-insert_asc-ne-none r (order_asc rows) h)

  select-append :
      (p : Row N → Bool) (rows : List (Row N)) (r : Row N)
      → select p (rows ++ r ∷ []) ≡ select p rows ++ (if p r then r ∷ [] else [])
  unfolding select
  select-append p [] r = ground arith
  select-append p (x ∷ rows) r = ground (arith, select-append p rows r)

module _ (F : Floats) where
  open F use {Float, eqf}

  -- Where no row was a request for the key, the one that `create_credit_request` inserts is.
  request_row-append :
      (q : CreditRequest Float) (uuid : String) (now : ℕ) (rows : Table Float)
      → request_row F q.task_id q.reservation_id q.amount rows ≡ none
      → eqf q.amount q.amount ≡ true
      → request_row F q.task_id q.reservation_id q.amount (rows ++ new_row F q uuid now ∷ [])
        ≡ some (new_row F q uuid now)
  unfolding is_request new_row order_asc
  request_row-append q uuid now rows h nan =
      let p = is_request F q.task_id q.reservation_id q.amount in
      let e : select p rows ≡ [] = empty_of_order_asc (select p rows) h in
      rw select-append (rw e (rw (eq_refl, eq_refl, nan)))

  -- The request for a key that has a row returns the first such row, and changes nothing.
  create_credit_request_found :
      (q : CreditRequest Float) (uuid : String) (now : ℕ) (rows : Table Float) (r : Row Float)
      → request_row F q.task_id q.reservation_id q.amount rows ≡ some r
      → create_credit_request F q uuid now rows ≡ (ok (from_row r), rows)
  unfolding create_credit_request
  create_credit_request_found q uuid now rows r h = simp h

  -- The row that a request without one has inserted; `none` if the insertion is refused.
  created :
      (q : CreditRequest Float) (uuid : String) (now : ℕ) (rows : Table Float)
      {r : ApprovalRecord Float} {rows' : Table Float}
      → request_row F q.task_id q.reservation_id q.amount rows ≡ none
      → create_credit_request F q uuid now rows ≡ (ok r, rows')
      → (eqf q.amount q.amount ≡ true)
        × (rows' ≡ rows ++ new_row F q uuid now ∷ [])
        × (r ≡ from_row (new_row F q uuid now))
  unfolding create_credit_request
  created q uuid now rows h e = ground arith

  -- The keys of two requests are the same.
  abbrev pub SameKey : CreditRequest Float → CreditRequest Float → Type 0
  SameKey q q' =
      (q'.task_id ≡ q.task_id) × (q'.reservation_id ≡ q.reservation_id) × (q'.amount ≡ q.amount)

  -- After a request for a credit has succeeded, every request with the same task, reservation and
  -- amount returns the same record and leaves the table as it is, whoever asks and when.
  pub create_credit_request_once :
      (q q' : CreditRequest Float) (uuid uuid' : String) (now now' : ℕ) (rows : Table Float)
      (r : ApprovalRecord Float) (rows' : Table Float)
      → create_credit_request F q uuid now rows ≡ (ok r, rows')
      → SameKey q q'
      → create_credit_request F q' uuid' now' rows' ≡ (ok r, rows')
  create_credit_request_once q q' uuid uuid' now now' rows r rows' e (kt, kr, ka) =
      elim (Option-cases (request_row F q.task_id q.reservation_id q.amount rows)) [
        | inr (x, h) ↦
            let old = create_credit_request_found q uuid now rows x h in
            cc (e, old, create_credit_request_found q' uuid' now' rows x (rw (kt, kr, ka) h))
        | inl h ↦
            let (nan, here, made) = created q uuid now rows h e in
            let found = request_row-append q uuid now rows h nan in
            rw (here, made) (create_credit_request_found q' uuid' now' _ _ (rw (kt, kr, ka) found))
      ]
