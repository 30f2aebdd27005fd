-- ===== src/Store/Exec/Keeps.antt =====
-- What an operation keeps of the database, whether it returns or raises: one rule for each way to
-- build an operation.
use deployments.Shared.{◌≡◌, Bool, true, false, Option, none, some, List, [], ◌∷◌}
use deployments.Shared.Tests.{if◌then◌else◌}
use deployments.Store.Errors.{Error, Result, ok, err}
use deployments.Store.World.{World, Database, Fault, answered, lost_request, lost_reply}
use deployments.Store.Exec.{
  Exec, pure, raise, continue, refuse_if, or_raise, wrap, wrap_result, logged, attempt, give_back,
  deliver, command, query, time_now, new_uuid, tenant_of_request, ◌>>=◌,
}

-- with `calm`, the database answers every call
abbrev pub Answers : Bool → List Fault → Type 0
Answers true fs = fs ≡ []
Answers false fs = Unit

Answers-rest : (calm : Bool) (f : Fault) (fs : List Fault) → Answers calm (f ∷ fs) → Answers calm fs
Answers-rest true f fs a = absurd (cc)
Answers-rest false f fs a = tt

pub record Holds (calm : Bool) (P : Database → Type 0) (w : World) : Type 0 where
  pub answers : Answers calm w.faults
  pub holds : P w.db

pub record Keeps {A : Type 0} (calm : Bool) (P : Database → Type 0) (m : Exec A) : Type 0 where
  pub at : (w : World) → Holds calm P w → Holds calm P (m w).1

module _ {A : Type 0} {calm : Bool} {P : Database → Type 0} where
  pub Keeps-pure : (a : A) → Keeps calm P (pure a)
  unfolding pure
  Keeps-pure a = record { at = λ w h. h }

  pub Keeps-raise : (e : Error) → Keeps calm P (raise {A = A} e)
  unfolding raise
  Keeps-raise e = record { at = λ w h. h }

  pub Keeps-if :
      (b : Bool) (m n : Exec A)
      → Keeps calm P m
      → Keeps calm P n
      → Keeps calm P (if b then m else n)
  Keeps-if true m n km kn = km
  Keeps-if false m n km kn = kn

  pub Keeps-or_raise : (e : Error) (o : Option A) → Keeps calm P (or_raise e o)
  unfolding or_raise
  Keeps-or_raise e none = record { at = λ w h. h }
  Keeps-or_raise e (some a) = record { at = λ w h. h }

  pub Holds-wrap_result : (r : Result A × World) → Holds calm P r.1 → Holds calm P (wrap_result r).1
  Holds-wrap_result (ok a, w) h = h
  Holds-wrap_result (err e, w) h = h

  pub Keeps-wrap : (m : Exec A) → Keeps calm P m → Keeps calm P (wrap m)
  unfolding wrap
  Keeps-wrap m k = record { at = λ w h. Holds-wrap_result (m w) (k.at w h) }

  pub Keeps-logged : (m : Exec A) → Keeps calm P m → Keeps calm P (logged m)
  unfolding logged
  Keeps-logged m k = record { at = λ w h. k.at w h }

  pub Keeps-attempt : (m : Exec A) → Keeps calm P m → Keeps calm P (attempt m)
  unfolding attempt
  Keeps-attempt m k = record { at = λ w h. k.at w h }

  pub Keeps-give_back : (r : Result A) → Keeps calm P (give_back r)
  unfolding give_back
  Keeps-give_back r = record { at = λ w h. h }

module _ {calm : Bool} {P : Database → Type 0} where
  pub Keeps-refuse_if : (b : Bool) (e : Error) → Keeps calm P (refuse_if b e)
  unfolding refuse_if
  Keeps-refuse_if true e = record { at = λ w h. h }
  Keeps-refuse_if false e = record { at = λ w h. h }

  pub Keeps-time_now : Keeps calm P time_now
  unfolding time_now
  Keeps-time_now = record { at = λ w h. record { answers = h.answers; holds = h.holds } }

  pub Keeps-new_uuid : Keeps calm P new_uuid
  unfolding new_uuid
  Keeps-new_uuid = record { at = λ w h. record { answers = h.answers; holds = h.holds } }

  pub Keeps-tenant_of_request : Keeps calm P tenant_of_request
  unfolding tenant_of_request
  Keeps-tenant_of_request = record { at = λ w h. h }

module _ {A B : Type 0} {calm : Bool} {P : Database → Type 0} where
  pub Holds-continue :
      (f : A → Exec B) (r : Result A × World)
      → ((a : A) → Keeps calm P (f a))
      → Holds calm P r.1
      → Holds calm P (continue f r).1
  Holds-continue f (ok a, w) kf h = (kf a).at w h
  Holds-continue f (err e, w) kf h = h

  pub Keeps-bind :
      (m : Exec A) (f : A → Exec B)
      → Keeps calm P m
      → ((a : A) → Keeps calm P (f a))
      → Keeps calm P (m >>= f)
  unfolding ◌>>=◌
  Keeps-bind m f km kf = record { at = λ w h. Holds-continue f (m w) kf (km.at w h) }

module _ {A : Type 0} {calm : Bool} {P : Database → Type 0} where
  Holds-deliver :
      (f : Database → A × Database) (fs : List Fault) (w : World)
      → ((db : Database) → P db → P (f db).1)
      → Answers calm fs
      → Holds calm P w
      → Holds calm P (deliver f fs w).1
  unfolding deliver
  Holds-deliver f [] w keep a h = record { answers = h.answers; holds = keep w.db h.holds }
  Holds-deliver f (answered ∷ fs) w keep a h = record {
    answers = Answers-rest calm _ fs a;
    holds = keep w.db h.holds;
  }
  Holds-deliver f (lost_request ∷ fs) w keep a h = record {
    answers = Answers-rest calm _ fs a;
    holds = h.holds;
  }
  Holds-deliver f (lost_reply ∷ fs) w keep a h = record {
    answers = Answers-rest calm _ fs a;
    holds = keep w.db h.holds;
  }

  pub Keeps-command :
      (f : Database → A × Database)
      → ((db : Database) → P db → P (f db).1)
      → Keeps calm P (command f)
  unfolding command
  Keeps-command f keep = record { at = λ w h. Holds-deliver f w.faults w keep h.answers h }

  pub Keeps-query : (f : Database → A) → Keeps calm P (query f)
  unfolding query
  Keeps-query f = Keeps-command (λ db. (f db, db)) (λ db h. h)

-- what a call leaves behind holds already, or holds of its change
module _ {A : Type 0} (Q : Database → Type 0) (f : Database → A × Database) where
  deliver-Holds :
      (fs : List Fault) (w : World) → Q w.db → Q (f w.db).1 → Holds false Q (deliver f fs w).1
  unfolding deliver
  deliver-Holds [] w before after = record { answers = tt; holds = after }
  deliver-Holds (answered ∷ fs) w before after = record { answers = tt; holds = after }
  deliver-Holds (lost_request ∷ fs) w before after = record { answers = tt; holds = before }
  deliver-Holds (lost_reply ∷ fs) w before after = record { answers = tt; holds = after }

  pub command-Holds : (w : World) → Q w.db → Q (f w.db).1 → Holds false Q (command f w).1
  unfolding command
  command-Holds w before after = deliver-Holds w.faults w before after

pub ruleset keeps_rules = (
  Keeps-pure, Keeps-raise, Keeps-if, Keeps-or_raise, Keeps-wrap, Keeps-logged, Keeps-refuse_if,
  Keeps-time_now, Keeps-new_uuid, Keeps-bind, Keeps-query, Keeps-attempt, Keeps-give_back,
  Keeps-tenant_of_request,
)
