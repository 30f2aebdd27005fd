-- ===== src/Store/Exec/Raises.antt =====
-- Which errors an operation may end with: one rule for each way to build an operation.
use deployments.Shared.{
  ◌≡◌, ◌⊎◌, inl, inr, refl, Bool, true, false, Option, none, some, List, [], ◌∷◌,
}
use deployments.Shared.Tests.{if◌then◌else◌}
use deployments.Store.Errors.{Error, Result, ok, err, driver, exhausted}
use deployments.Store.World.{World, Database, Fault, answered, lost_request, lost_reply}
use deployments.Store.Exec.{
  Exec, pure, raise, continue, refuse_if, or_raise, wrap, wrap_result, logged, deliver, command,
  query, time_now, new_uuid, ◌>>=◌,
}

abbrev pub is_exhausted : Error → Bool
is_exhausted exhausted = true
is_exhausted _ = false

abbrev pub Finished : {A : Type 0} → Result A → Type 0
Finished (ok a) = Unit
Finished (err e) = is_exhausted e ≡ false

-- the operation never runs out of fuel
pub record Finishes {A : Type 0} (m : Exec A) : Type 0 where
  pub at : (w : World) → Finished (m w).0

module _ {A : Type 0} where
  pub Finishes-pure : (a : A) → Finishes (pure a)
  unfolding pure
  Finishes-pure a = record { at = λ w. tt }

  pub Finishes-raise : (e : Error) → is_exhausted e ≡ false → Finishes (raise {A = A} e)
  unfolding raise
  Finishes-raise e h = record { at = λ w. h }

  pub Finishes-if :
      (b : Bool) (m n : Exec A) → Finishes m → Finishes n → Finishes (if b then m else n)
  Finishes-if true m n km kn = km
  Finishes-if false m n km kn = kn

  pub Finishes-or_raise :
      (e : Error) (o : Option A) → is_exhausted e ≡ false → Finishes (or_raise e o)
  unfolding or_raise
  Finishes-or_raise e none h = record { at = λ w. h }
  Finishes-or_raise e (some a) h = record { at = λ w. tt }

  Finished-wrap_result : (r : Result A × World) → Finished (wrap_result r).0
  Finished-wrap_result (ok a, w) = tt
  Finished-wrap_result (err e, w) = refl

  pub Finishes-wrap : (m : Exec A) → Finishes (wrap m)
  unfolding wrap
  Finishes-wrap m = record { at = λ w. Finished-wrap_result (m w) }

  pub Finishes-logged : (m : Exec A) → Finishes (logged m)
  unfolding logged
  Finishes-logged m = record { at = λ w. tt }

  Finished-deliver :
      (f : Database → A × Database) (fs : List Fault) (w : World) → Finished (deliver f fs w).0
  unfolding deliver
  Finished-deliver f [] w = tt
  Finished-deliver f (answered ∷ fs) w = tt
  Finished-deliver f (lost_request ∷ fs) w = refl
  Finished-deliver f (lost_reply ∷ fs) w = refl

  pub Finishes-command : (f : Database → A × Database) → Finishes (command f)
  unfolding command
  Finishes-command f = record { at = λ w. Finished-deliver f w.faults w }

  pub Finishes-query : (f : Database → A) → Finishes (query f)
  unfolding query
  Finishes-query f = Finishes-command (λ db. (f db, db))

pub Finishes-refuse_if : (b : Bool) (e : Error) → is_exhausted e ≡ false → Finishes (refuse_if b e)
unfolding refuse_if
Finishes-refuse_if true e h = record { at = λ w. h }
Finishes-refuse_if false e h = record { at = λ w. tt }

pub Finishes-time_now : Finishes time_now
unfolding time_now
Finishes-time_now = record { at = λ w. tt }

pub Finishes-new_uuid : Finishes new_uuid
unfolding new_uuid
Finishes-new_uuid = record { at = λ w. tt }

module _ {A B : Type 0} where
  Finished-continue :
      (f : A → Exec B) (r : Result A × World)
      → Finished r.0
      → ((a : A) → Finishes (f a))
      → Finished (continue f r).0
  Finished-continue f (ok a, w) h kf = (kf a).at w
  Finished-continue f (err e, w) h kf = h

  pub Finishes-bind :
      (m : Exec A) (f : A → Exec B) → Finishes m → ((a : A) → Finishes (f a)) → Finishes (m >>= f)
  unfolding ◌>>=◌
  Finishes-bind m f km kf = record { at = λ w. Finished-continue f (m w) (km.at w) kf }

pub ruleset finishes_rules = (
  refl, Finishes-pure, Finishes-raise, Finishes-if, Finishes-or_raise, Finishes-wrap,
  Finishes-logged, Finishes-refuse_if, Finishes-time_now, Finishes-new_uuid, Finishes-bind,
  Finishes-command, Finishes-query,
)

-- a query is answered, or raises the driver's error; the database stays as it was
deliver-cases :
    {A : Type 0} (f : Database → A) (fs : List Fault) (w : World)
    → (w' : World) × (w'.db ≡ w.db)
      × ((deliver (λ db. (f db, db)) fs w ≡ (ok (f w.db), w'))
          ⊎ (deliver (λ db. (f db, db)) fs w ≡ (err driver, w')))
unfolding deliver
deliver-cases f [] w = (w, refl, inl refl)
deliver-cases f (answered ∷ fs) w = (record w { faults = fs }, refl, inl refl)
deliver-cases f (lost_request ∷ fs) w = (record w { faults = fs }, refl, inr refl)
deliver-cases f (lost_reply ∷ fs) w = (record w { faults = fs }, refl, inr refl)

pub query-cases :
    {A : Type 0} (f : Database → A) (w : World)
    → (w' : World) × (w'.db ≡ w.db)
      × ((query f w ≡ (ok (f w.db), w')) ⊎ (query f w ≡ (err driver, w')))
unfolding query command
query-cases f w = deliver-cases f w.faults w
