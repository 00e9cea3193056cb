-- ===== src/Mcp/Registry.antt =====
-- context.py and mcp/registry.py: `AsanteRunContext` and `TrustedTaskRegistry`. The equality of
-- two contexts, that of the library's data classes, is an argument.
use asante_secure_multi_agen.Prelude.{
  String, ◌≡◌, refl, ap, ◌∙◌, ◌≢◌, ◌⊎◌, inl, inr, Bool, true, false, not, Option, none, some, List,
  [], ◌∷◌, arith, ◌==◌, eq_iff, eq_refl, if◌then◌else◌, is_some, Bool-cases, Option-cases, fstring,
}
use asante_secure_multi_agen.Prelude.Dict.{Dict, get, put, remove, get-put, get-remove}
use asante_secure_multi_agen.Prelude.Exec.{
  Exc, value_error, trusted_task_not_found_error, Result, ok, err, Action, gets, ◌>>=◌, ◌>>◌,
  modify, raise_if,
}
use asante_secure_multi_agen.Ruhusa.{TaskContext, DelegationGrant}

pub record AsanteRunContext (N : Type 0) : Type 0 where
  pub task : TaskContext
  pub reservations_delegation : List (DelegationGrant N)
  pub property_operations_delegation : List (DelegationGrant N)
  pub guest_support_message_delegation : List (DelegationGrant N)
  pub service_recovery_delegation : List (DelegationGrant N)
  pub service_recovery_credit_request_delegation : List (DelegationGrant N)

abbrev pub Registry : Type 0 → Type 0
Registry N = Dict (AsanteRunContext N)

module _ {N : Type 0} where
  -- `existing is not None and existing != context`
  abbrev pub conflicts :
      (AsanteRunContext N → AsanteRunContext N → Bool)
      → AsanteRunContext N
      → Option (AsanteRunContext N)
      → Bool
  conflicts same context none = false
  conflicts same context (some existing) = not (same existing context)

  unfoldable pub register :
      (AsanteRunContext N → AsanteRunContext N → Bool)
      → AsanteRunContext N
      → Action (Registry N) Unit
  register same context = do
    let task_id = context.task.task_id
    existing ← gets (λ contexts. get contexts task_id)
    raise_if (conflicts same context existing)
        (value_error (fstring ("trusted task already registered: " ∷ task_id ∷ [])))
    modify (λ contexts. put contexts task_id context)

  abbrev pub or_not_found : Option (AsanteRunContext N) → Result (AsanteRunContext N)
  or_not_found none = err (trusted_task_not_found_error "unknown or expired trusted task")
  or_not_found (some context) = ok context

  unfoldable pub require : Registry N → String → Result (AsanteRunContext N)
  require contexts task_id = or_not_found (get contexts task_id)

  unfoldable pub unregister : String → Action (Registry N) Unit
  unregister task_id = modify (λ contexts. remove contexts task_id)

  unfoldable pub contains : Registry N → String → Bool
  contains contexts task_id = is_some (get contexts task_id)

  -- Nothing, or the same context, is there under the task.
  abbrev pub NoConflict :
      (AsanteRunContext N → AsanteRunContext N → Bool) → AsanteRunContext N → Registry N → Type 0
  NoConflict same context contexts =
      (require contexts context.task.task_id
        ≡ err (trusted_task_not_found_error "unknown or expired trusted task"))
      ⊎ ((existing : AsanteRunContext N) × (require contexts context.task.task_id ≡ ok existing)
          × (same existing context ≡ true))

  -- Whatever the equality of contexts answers: a registration either finds a context under its
  -- task that is not the same, and then raises and changes nothing, or finds none or the same, and
  -- is accepted; then `require` answers the registered context under its task and every other task
  -- as before.
  pub register-require :
      (same : AsanteRunContext N → AsanteRunContext N → Bool) (context : AsanteRunContext N)
      (contexts : Registry N)
      → let (result, contexts') = register same context contexts in
        ((existing : AsanteRunContext N) × (require contexts context.task.task_id ≡ ok existing)
          × (same existing context ≡ false)
          × (result
              ≡ err (
                  value_error
                    (fstring ("trusted task already registered: " ∷ context.task.task_id ∷ []))))
          × (contexts' ≡ contexts))
        ⊎ (NoConflict same context contexts
            × (result ≡ ok tt)
            × ((other : String)
                → require contexts' other
                  ≡ (if context.task.task_id == other then ok context else require contexts other)))
  unfolding register require
  register-require same context contexts = elim (Option-cases (get contexts context.task.task_id)) [
    | inl h ↦ rw h (inr (inl refl, refl, λ other. rw get-put (ground arith)))
    | inr (existing, h) ↦ rw h (elim (Bool-cases (same existing context)) [
      | inl e ↦ rw e (inr (inr (existing, refl, e), refl, λ other. rw get-put (ground arith)))
      | inr e ↦ rw e (inl (existing, refl, e, refl, refl))
    ])
  ]

  -- After `unregister`, the task is no longer answered: `require` raises `TrustedTaskNotFoundError`
  -- and `contains` is false; every other task is answered as before.
  pub unregister-require :
      (task_id : String) (contexts : Registry N)
      → let contexts' = (unregister task_id contexts).1 in
        (require contexts' task_id
          ≡ err (trusted_task_not_found_error "unknown or expired trusted task"))
        × (contains contexts' task_id ≡ false)
        × ((other : String) → other ≢ task_id → require contexts' other ≡ require contexts other)
  unfolding unregister require contains
  unregister-require task_id contexts = (
    rw get-remove (rw (eq_refl task_id) refl),
    rw get-remove (rw (eq_refl task_id) refl),
    λ other ne. rw get-remove (ground (arith, eq_iff task_id other)),
  )

  pub get_of_require :
      (tasks : Registry N) (task_id : String) (context : AsanteRunContext N)
      → require tasks task_id ≡ ok context
      → get tasks task_id ≡ some context
  unfolding require
  get_of_require tasks task_id context h = elim (Option-cases (get tasks task_id)) [
    | inl e ↦ ground (arith, e, h)
    | inr (c, e) ↦ ground (arith, e, h)
  ]

  module _ (same : AsanteRunContext N → AsanteRunContext N → Bool) where
    pub registered :
        (context : AsanteRunContext N) (tasks tasks' : Registry N) (u : Unit {0})
        → register same context tasks ≡ (ok u, tasks')
        → require tasks' context.task.task_id ≡ ok context
    registered context tasks tasks' u k = elim (rw k at (register-require same context tasks)) [
      | inl (existing, h, d, raised, kept) ↦ ground (arith, raised)
      | inr (free, h, answers) ↦
          answers context.task.task_id ∙ rw (eq_refl context.task.task_id) refl
    ]

    registered-others :
        (context : AsanteRunContext N) (tasks tasks' : Registry N) (u : Unit {0})
        → register same context tasks ≡ (ok u, tasks')
        → (other : String) → other ≢ context.task.task_id
        → require tasks' other ≡ require tasks other
    registered-others context tasks tasks' u k other ne =
        elim (rw k at (register-require same context tasks)) [
          | inl (existing, h, d, raised, kept) ↦ ground (arith, raised)
          | inr (free, h, answers) ↦
              answers other ∙ ground (arith, eq_iff context.task.task_id other)
        ]

    pub refused :
        (context : AsanteRunContext N) (tasks tasks' : Registry N) (e : Exc)
        → register same context tasks ≡ (err e, tasks')
        → tasks' ≡ tasks
    refused context tasks tasks' e k = elim (rw k at (register-require same context tasks)) [
      | inl (existing, h, d, raised, kept) ↦ kept
      | inr (free, h, answers) ↦ ground (arith, h)
    ]

    -- What `unregister` leaves of the registry of a run whose agents left it alone.
    pub gone :
        (context : AsanteRunContext N) (before tasks after : Registry N) (u : Unit {0})
        (task_id : String)
        → context.task.task_id ≡ task_id
        → register same context before ≡ (ok u, tasks)
        → after ≡ tasks
        → let left = (unregister task_id after).1 in
          (require left task_id
            ≡ err (trusted_task_not_found_error "unknown or expired trusted task"))
          × (contains left task_id ≡ false)
          × ((other : String) → other ≢ task_id → require left other ≡ require before other)
    gone context before tasks after u task_id is_task k kept =
        let (lost, absent, others) = unregister-require task_id after in
        (
          lost,
          absent,
          λ other ne.
              others other ne
              ∙ ap (λ r. require r other) kept
              ∙ registered-others context before tasks u k other (rw is_task ne),
        )

    pub registered-put :
        (context : AsanteRunContext N) (tasks tasks' : Registry N) (u : Unit {0})
        → register same context tasks ≡ (ok u, tasks')
        → tasks' ≡ put tasks context.task.task_id context
    unfolding register
    registered-put context tasks tasks' u h =
        elim (Bool-cases (conflicts same context (get tasks context.task.task_id))) [
          | inl t ↦ ground (arith, t, h)
          | inr n ↦ ground (arith, n, h)
        ]
