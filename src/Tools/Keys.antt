-- ===== src/Tools/Keys.antt =====
-- Two maintenance requests that share an idempotency key.
use Prim.Native.String.{◌++◌}
use text.Mathlib.TextLemmas.{append_assoc, append-nil}
use mathlib.Core.Path.{subst}
use asante_secure_multi_agen.Prelude.{ℕ, String, ◌≡◌, sym, ap, ◌∙◌, [], ◌∷◌, fstring}
use asante_secure_multi_agen.Floats.{Floats}
use asante_secure_multi_agen.Ruhusa.{Ruhusa, TaskContext}
use asante_secure_multi_agen.Identity.Workload.{Identities}
use asante_secure_multi_agen.Tools.Providers.{operation_key, KeyedLog, create_work_order}
use asante_secure_multi_agen.Tools.Idempotence.{Replays, second_call-Replays}
use asante_secure_multi_agen.Tools.Operations.{TextOps, Draw}
use asante_secure_multi_agen.Tools.Safety.Operations.{maintenance_key}

module _ (F : Floats) (R : Ruhusa F.Float) (ids : Identities) (py : TextOps) (draw : Draw) where
  open py use {strip, sha256}

  abbrev key_of : String → String → String → String → TaskContext → String
  key_of = maintenance_key F R ids py draw

  maintenance_key-eq :
      (task : TaskContext) (reservation_id category description : String)
      → strip category ≡ category
      → strip description ≡ description
      → strip (fstring (category ∷ "\nhigh" ∷ [])) ≡ fstring (category ∷ "\nhigh" ∷ [])
      → strip (fstring ("low\n" ∷ description ∷ [])) ≡ fstring ("low\n" ∷ description ∷ [])
      → key_of reservation_id (fstring (category ∷ "\nhigh" ∷ [])) "low" description task
        ≡ key_of reservation_id category "high" (fstring ("low\n" ∷ description ∷ [])) task
  maintenance_key-eq task reservation_id category description a b c d =
      let end = description ++ "" in
      let rest = "\n" ++ ("low" ++ ("\n" ++ end)) in
      rw (a, b, c, d)
        (ap (operation_key sha256 "maintenance.create" task.task_id reservation_id) (
          append_assoc category "\nhigh" rest
          ∙ ap (λ t. category ++ t) (append_assoc "\n" "high" rest)
          ∙ ap (λ t. category ++ ("\n" ++ ("high" ++ ("\n" ++ t))))
              (sym (append-nil ("low\n" ++ end) ∙ append_assoc "low" "\n" end))))

  -- The idempotency key of a maintenance request does not determine it, since the texts of its
  -- payload are joined by line breaks that they may hold themselves. A request of low urgency whose
  -- category ends with a second line `high`, and one of high urgency whose description begins with
  -- a line `low`, have the same key in a task, if `strip` has nothing to take away. So if both are
  -- made, the second one is answered with the work order of the first, and gets none of its own.
  pub maintenance_key-shared :
      (task : TaskContext) (reservation_id category description : String) (hex hex' : String)
      (now now' : ℕ) (log : KeyedLog F.Float)
      → strip category ≡ category
      → strip description ≡ description
      → strip (fstring (category ∷ "\nhigh" ∷ [])) ≡ fstring (category ∷ "\nhigh" ∷ [])
      → strip (fstring ("low\n" ∷ description ∷ [])) ≡ fstring ("low\n" ∷ description ∷ [])
      → let category' = fstring (category ∷ "\nhigh" ∷ []) in
        let description' = fstring ("low\n" ∷ description ∷ []) in
        let low = key_of reservation_id category' "low" description task in
        let high = key_of reservation_id category "high" description' task in
        let log' =
          (create_work_order hex now reservation_id category' "low" description low log).1 in
        (low ≡ high)
        × Replays low log'
            (create_work_order hex' now' reservation_id category "high" description' high log')
  maintenance_key-shared task reservation_id category description hex hex' now now' log a b c d =
      let category' = fstring (category ∷ "\nhigh" ∷ []) in
      let description' = fstring ("low\n" ∷ description ∷ []) in
      let same = maintenance_key-eq task reservation_id category description a b c d in
      let low = key_of reservation_id category' "low" description task in
      let log' = (create_work_order hex now reservation_id category' "low" description low log).1 in
      (
        same,
        subst
            (λ key.
              Replays low log'
                (create_work_order hex' now' reservation_id category "high" description' key log'))
            same
            ((second_call-Replays low log).0 hex hex' now now' reservation_id reservation_id
              category' category "low" "high" description description'),
      )
