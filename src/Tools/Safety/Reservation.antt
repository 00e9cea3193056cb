-- ===== src/Tools/Safety/Reservation.antt =====
-- `SecuredReservationTool`: nothing is read or disclosed but behind the fence.
use asante_secure_multi_agen.Prelude.{
  [], ℕ, String, ◌≡◌, refl, ap, ◌∙◌, inl, inr, Bool, true, false, Option, none, some, List,
  Bool-cases,
}
use asante_secure_multi_agen.Prelude.Exec.{Outcome-cases, Result-cases}
use asante_secure_multi_agen.Tools.Safety.{
  Ruhusa, Identities, Authorization, Business, Fields, World, TaskContext, DelegationGrant,
  OnlyIfAdmitted, Acts, untouched, gated-OnlyIfAdmitted, earlier-le,
}
use asante_secure_multi_agen.Tools.Reservation.{
  complete_read, store_read, after_lookup, get_reservation, run_read, ReadTimes, read_invocation,
}
use asante_secure_multi_agen.Cache.Store.{
  put_entry, build_reservation_cache_key, schema_version, get_entry,
}
use asante_secure_multi_agen.Metrics.{record_cache_lookup}
use asante_secure_multi_agen.Tools.Providers.{read_reservation}
use asante_secure_multi_agen.Identity.Workload.{
  reservations_workload, require_workload, supervisor_workload,
}

module _ {N : Type 0} (R : Ruhusa N) (ids : Identities) (sha256 : String → String) (ttl : ℕ) where
  -- Nothing but the cache and the provider's count of reads has changed.
  abbrev pub OnlyReads : Business N → Business N → Type 0
  OnlyReads b b' = b' ≡ record b { cache = b'.cache; provider = b'.provider }

  OnlyReads-trans : (a b c : Business N) → OnlyReads a b → OnlyReads b c → OnlyReads a c
  OnlyReads-trans a b c h k =
      k ∙ ap (λ (x : Business N). record x { cache = c.cache; provider = c.provider }) h

  complete_read-business :
      (permit : R.Permit) (failure : String) (result : Fields N) (w : World R)
      → (complete_read R ids sha256 ttl permit failure result w).1.business ≡ w.business
  complete_read-business permit failure result w =
      elim (Outcome-cases (R.complete permit w.control)) [
        | inr (e, c, h) ↦ rw h
        | inl (b, c, h) ↦ rw h (elim (Bool-cases b) [ inl t ↦ rw t | inr f ↦ rw f ])
      ]

  store_read-OnlyReads :
      (key : String) (stored : ℕ) (permit : R.Permit) (auth : Authorization)
      (found : Option (Fields N)) (w : World R)
      → OnlyReads w.business (store_read R ids sha256 ttl key stored permit auth found w).1.business
  store_read-OnlyReads key stored permit auth none w = rw (complete_read-business permit _ _ w)
  store_read-OnlyReads key stored permit auth (some reservation) w =
      elim (Outcome-cases (put_entry key reservation ttl stored w.business.cache)) [
        | inr (e, c, h) ↦ rw h
        | inl (u, c, h) ↦ rw h (rw complete_read-business)
      ]

  miss-OnlyReads :
      (reservation_id key : String) (stored : ℕ) (permit : R.Permit) (auth : Authorization)
      (b : Business N) (w : World R)
      → OnlyReads b w.business
      → OnlyReads b
          (after_lookup R ids sha256 ttl reservation_id key stored permit auth false none
            w).1.business
  miss-OnlyReads reservation_id key stored permit auth b w h =
      elim (Outcome-cases (read_reservation reservation_id w.business.provider)) [
        | inr (e, p, h') ↦ rw h' (OnlyReads-trans b _ _ h refl)
        | inl (found, p, h') ↦
            rw h' (OnlyReads-trans b _ _ h (store_read-OnlyReads key stored permit auth found _))
      ]

  after_lookup-OnlyReads :
      (reservation_id key : String) (stored : ℕ) (permit : R.Permit) (auth : Authorization)
      (hit : Bool) (value : Option (Fields N)) (b : Business N) (w : World R)
      → OnlyReads b w.business
      → OnlyReads b
          (after_lookup R ids sha256 ttl reservation_id key stored permit auth hit value
            w).1.business
  after_lookup-OnlyReads reservation_id key stored permit auth true (some v) b w h =
      rw complete_read-business h
  after_lookup-OnlyReads reservation_id key stored permit auth true none b w h =
      miss-OnlyReads reservation_id key stored permit auth b w h
  after_lookup-OnlyReads reservation_id key stored permit auth false value b w h =
      miss-OnlyReads reservation_id key stored permit auth b w h

  run_read-OnlyReads :
      (times : ReadTimes) (reservation_id : String) (permit : R.Permit) (auth : Authorization)
      (w : World R)
      → OnlyReads w.business
          (run_read R ids sha256 ttl times reservation_id permit auth w).1.business
  unfolding run_read record_cache_lookup
  run_read-OnlyReads times reservation_id permit auth w =
      let key = build_reservation_cache_key sha256 reservation_id schema_version in
      let (lookup, c) = get_entry key times.looked_up w.business.cache in
      after_lookup-OnlyReads reservation_id key times.stored permit auth lookup.hit lookup.value
        w.business _ refl

  -- A read of a reservation changes no store, unless the library has admitted and revalidated
  -- `reservation.read` on the reservation for the Reservations workload, with the task and the
  -- delegation chain of the call and no longer than the task; then nothing but the cache and the
  -- provider of reservations is used.
  pub get_reservation-OnlyIfAdmitted :
      (times : ReadTimes) (reservation_id : String) (task : TaskContext)
      (chain : List (DelegationGrant N)) (w : World R)
      → OnlyIfAdmitted R
          (Acts R ids reservations_workload "reservation.read" reservation_id [] task chain)
          OnlyReads
          w
          (get_reservation R ids sha256 ttl times reservation_id task chain w)
  unfolding get_reservation
  get_reservation-OnlyIfAdmitted times reservation_id task chain w =
      elim (Result-cases (require_workload ids supervisor_workload)) [
        | inr (e, h) ↦ rw h (untouched refl tt)
        | inl (i, h) ↦ rw h (elim (Result-cases (require_workload ids reservations_workload)) [
          | inr (e, h') ↦ rw h' (untouched refl tt)
          | inl (j, h') ↦ rw h' (
              gated-OnlyIfAdmitted R
                (Acts R ids reservations_workload "reservation.read" reservation_id [] task chain)
                OnlyReads (read_invocation R ids sha256 ttl reservation_id task chain times.now i j)
                _ _ _ w (j, h', refl, refl, refl, refl, refl, refl, earlier-le _ _)
                (run_read-OnlyReads times reservation_id))
        ])
      ]
