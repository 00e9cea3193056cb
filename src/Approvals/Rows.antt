-- ===== src/Approvals/Rows.antt =====
-- The row of an approval id, under the statements that change the table.
use mathlib.Core.Option
use asante_secure_multi_agen.Prelude.{
  String, ◌≡◌, Option, none, some, List, [], ◌∷◌, ◌++◌, arith, ◌==◌, eq_iff, if◌then◌else◌,
}
use asante_secure_multi_agen.Approvals.Table.{Row, select, fetchone, update, by_id, order_asc}
use asante_secure_multi_agen.Floats.{Floats}
use asante_secure_multi_agen.Approvals.Requests.{is_request}

module _ {N : Type 0} where
  -- The row that `SELECT * ... WHERE approval_id = ?` fetches.
  abbrev pub row_of : String → List (Row N) → Option (Row N)
  row_of id rows = fetchone (select (by_id id) rows)

  abbrev pub first_of_two : Option (Row N) → Option (Row N) → Option (Row N)
  first_of_two none y = y
  first_of_two (some r) y = some r

  pub row_of-cons :
      (id : String) (r : Row N) (rows : List (Row N))
      → row_of id (r ∷ rows) ≡ (if r.approval_id == id then some r else row_of id rows)
  unfolding select
  row_of-cons id r rows = ground arith

  pub row_of-update :
      (id j : String) (f : Row N → Row N) (rows : List (Row N))
      → ((r : Row N) → (f r).approval_id ≡ r.approval_id)
      → row_of j (update id f rows)
        ≡ (if id == j then Option.map f (row_of j rows) else row_of j rows)
  unfolding select update
  row_of-update id j f [] keeps = ground arith
  row_of-update id j f (r ∷ rows) keeps = ground (
    arith,
    row_of-update id j f rows keeps,
    keeps r,
    eq_iff r.approval_id id,
    eq_iff r.approval_id j,
    eq_iff id j,
  )

  pub row_of-append :
      (j : String) (r : Row N) (rows : List (Row N))
      → row_of j (rows ++ r ∷ [])
        ≡ first_of_two (row_of j rows) (if r.approval_id == j then some r else none)
  unfolding select
  row_of-append j r [] = ground arith
  row_of-append j r (x ∷ rows) = ground (arith, row_of-append j r rows)

  pub approval_id-row_of :
      (id : String) (rows : List (Row N)) (r : Row N) → row_of id rows ≡ some r → r.approval_id ≡ id
  unfolding select
  approval_id-row_of id [] r h = cc
  approval_id-row_of id (x ∷ rows) r h =
      ground (arith, approval_id-row_of id rows r, eq_iff x.approval_id id)

-- The row that `find_credit_request` fetches.
abbrev pub request_row :
    (F : Floats) → String → String → F.Float → List (Row F.Float) → Option (Row F.Float)
request_row F task_id reservation_id amount rows =
    fetchone (order_asc (select (is_request F task_id reservation_id amount) rows))
