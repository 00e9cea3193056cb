-- ===== src/Approvals/Audit.antt =====
-- What the row of an approval request says of the calls that led to it.
use mathlib.Core.Option.{some-injective}
use mathlib.Core.Path.{subst}
use mathlib.Core.List.{Memᴰ}
use asante_secure_multi_agen.Prelude.{
  ℕ, String, ◌≡◌, refl, sym, Bool, true, false, Option, none, some, List, [], ◌∷◌,
}
use asante_secure_multi_agen.Floats.{Floats}
use asante_secure_multi_agen.Values.{Fields}
use asante_secure_multi_agen.Approvals.Json.{dumps}
use asante_secure_multi_agen.Approvals.Table.{
  Status, pending, approved, denied, executed, Row, select,
}
use asante_secure_multi_agen.Approvals.Requests.{new_row}
use asante_secure_multi_agen.Approvals.Store.{decided, set_executed}
use asante_secure_multi_agen.Approvals.Rows.{row_of}
use asante_secure_multi_agen.Approvals.Commands.{
  Command, decide_of, mark_executed_of, target, Becomes, stays, inserts, decides, executes, after,
}
use asante_secure_multi_agen.Approvals.History.{perform-Becomes}

module _ {N : Type 0} (id : String) (cs : List (Command N)) (r : Row N) where
  -- A `decide` call of the history is what the row records: who, when, and the note.
  abbrev pub HasDecision : Bool → Type 0
  HasDecision b =
      (by : String) × (memo : Option String) × (now : ℕ) × Memᴰ (decide_of id b by memo now) cs
      × (r.decided_by ≡ some by)
      × (r.decided_at ≡ some now)
      × (r.decision_note ≡ memo)

  -- A `mark_executed` call of the history is what the row records: when, and the result.
  abbrev pub HasExecution : Type 0
  HasExecution =
      (result : Fields N) × (now : ℕ) × Memᴰ (mark_executed_of id result now) cs
      × (r.executed_at ≡ some now)
      × (r.execution_result_json ≡ some (dumps result))

  abbrev pub NotExecuted : Type 0
  NotExecuted = (r.executed_at ≡ none) × (r.execution_result_json ≡ none)

  abbrev pub IsJustified : Status → Type 0
  IsJustified pending = NotExecuted × (r.decided_at ≡ none) × (r.decided_by ≡ none)
  IsJustified approved = NotExecuted × HasDecision true
  IsJustified denied = NotExecuted × HasDecision false
  IsJustified executed = HasExecution × HasDecision true

module _ {N : Type 0} (id : String) (c : Command N) (cs : List (Command N)) (r : Row N) where
  IsJustified-cons : (s : Status) → IsJustified id cs r s → IsJustified id (c ∷ cs) r s
  IsJustified-cons pending h = h
  IsJustified-cons approved (none_yet, (by, memo, now, m, x, y, z)) =
      (none_yet, (by, memo, now, Memᴰ.tail m, x, y, z))
  IsJustified-cons denied (none_yet, (by, memo, now, m, x, y, z)) =
      (none_yet, (by, memo, now, Memᴰ.tail m, x, y, z))
  IsJustified-cons executed ((result, t, m', u, v), (by, memo, now, m, x, y, z)) =
      ((result, t, Memᴰ.tail m', u, v), (by, memo, now, Memᴰ.tail m, x, y, z))

module _ (F : Floats) (id : String) (c : Command F.Float) (cs : List (Command F.Float)) where
  open F use {Float}

  abbrev Justifies : Row Float → Type 0
  Justifies r = IsJustified id (c ∷ cs) r r.status

  decided-Justifies :
      (r : Row Float) (b : Bool) (by : String) (memo : Option String) (now : ℕ)
      → c ≡ decide_of id b by memo now
      → NotExecuted id cs r
      → Justifies (decided (target b) now by memo r)
  decided-Justifies r true by memo now e h =
      (h, (by, memo, now, Memᴰ.head (sym e), refl, refl, refl))
  decided-Justifies r false by memo now e h =
      (h, (by, memo, now, Memᴰ.head (sym e), refl, refl, refl))

  executed-Justifies :
      (r : Row Float) (result : Fields Float) (now : ℕ)
      → c ≡ mark_executed_of id result now
      → HasDecision id cs r true
      → Justifies (set_executed now result r)
  executed-Justifies r result now e (by, memo, t, m, x, y, z) =
      ((result, now, Memᴰ.head (sym e), refl, refl), (by, memo, t, Memᴰ.tail m, x, y, z))

  Becomes-Justifies :
      (old : Option (Row Float)) (r : Row Float)
      → Becomes F c id old (some r)
      → ((r' : Row Float) → old ≡ some r' → IsJustified id cs r' r'.status)
      → Justifies r
  unfolding new_row
  Becomes-Justifies old r (stays e) h = IsJustified-cons id c cs r r.status (h r (sym e))
  Becomes-Justifies old r (inserts q uuid now ec eo en) h =
      subst Justifies (sym (some-injective r _ en)) ((refl, refl), refl, refl)
  Becomes-Justifies old r (decides r' b by memo now ec eo st en) h =
      subst Justifies (sym (some-injective r _ en))
        (decided-Justifies r' b by memo now ec (subst (IsJustified id cs r') st (h r' eo)).0)
  Becomes-Justifies old r (executes r' result now ec eo st en) h =
      subst Justifies (sym (some-injective r _ en))
        (executed-Justifies r' result now ec (subst (IsJustified id cs r') st (h r' eo)).1)

module _ (F : Floats) where
  open F use {Float}

  -- Every row that any history of calls on an empty table leaves is justified by that history: a
  -- pending row has no decision; an approved, denied or executed one names the human, the time
  -- and the note of a `decide` call of the history with that outcome; only an executed row has an
  -- execution, that of a `mark_executed` call of the history, and it was approved.
  pub after-IsJustified :
      (id : String) (cs : List (Command Float)) (r : Row Float)
      → row_of id (after F cs) ≡ some r
      → IsJustified id cs r r.status
  unfolding after select
  after-IsJustified id [] r h = cc
  after-IsJustified id (c ∷ cs) r h =
      Becomes-Justifies F id c cs (row_of id (after F cs)) r
        (subst (Becomes F c id (row_of id (after F cs))) h (perform-Becomes F c id (after F cs)))
        (after-IsJustified id cs)
