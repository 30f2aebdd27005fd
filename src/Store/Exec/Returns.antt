-- ===== src/Store/Exec/Returns.antt =====
-- What holds of the values that an operation returns.
use deployments.Shared.{◌≡◌, inl, inr, Bool, true, false}
use deployments.Shared.Tests.{if◌then◌else◌}
use deployments.Store.Errors.{Error, Result, ok, err}
use deployments.Store.World.{World, Database}
use deployments.Store.Exec.{
  Exec, pure, raise, continue, wrap, wrap_result, refuse_if, query, ◌>>=◌, ◌>>◌,
}
use deployments.Store.Exec.Keeps.{Keeps}
use deployments.Store.Exec.Raises.{Finishes, Finished, query-cases}

abbrev pub Returned : {A : Type 0} → (A → Type 0) → Result A → Type 0
Returned Q (ok a) = Q a
Returned Q (err e) = Unit

pub record Returns {A : Type 0} (Q : A → Type 0) (m : Exec A) : Type 0 where
  pub at : (w : World) → Returned Q (m w).0

pub Returned-wrap_result :
    {A : Type 0} (Q : A → Type 0) (r : Result A × World)
    → Returned Q r.0
    → Returned Q (wrap_result r).0
Returned-wrap_result Q (ok a, w) h = h
Returned-wrap_result Q (err e, w) h = tt

pub Returned-ok :
    {A : Type 0} (Q : A → Type 0) (r : Result A) (a : A) → r ≡ ok a → Returned Q r → Q a
Returned-ok Q r a e h = rw e at h

module _ {A : Type 0} {Q : A → Type 0} where
  pub Returns-pure : (a : A) → Q a → Returns Q (pure a)
  unfolding pure
  Returns-pure a h = record { at = λ w. h }

  pub Returns-raise : (e : Error) → Returns Q (raise e)
  unfolding raise
  Returns-raise e = record { at = λ w. tt }

  pub Returns-wrap : (m : Exec A) → Returns Q m → Returns Q (wrap m)
  unfolding wrap
  Returns-wrap m k = record { at = λ w. Returned-wrap_result Q (m w) (k.at w) }

module _ {A B : Type 0} {R : A → Type 0} {Q : B → Type 0} where
  pub Returned-continue :
      (f : A → Exec B) (r : Result A × World)
      → Returned R r.0
      → ((a : A) → R a → Returns Q (f a))
      → Returned Q (continue f r).0
  Returned-continue f (ok a, w) h kf = (kf a h).at w
  Returned-continue f (err e, w) h kf = tt

  -- what the first operation returns carries over to the second
  pub Returns-then :
      (m : Exec A) (f : A → Exec B)
      → Returns R m
      → ((a : A) → R a → Returns Q (f a))
      → Returns Q (m >>= f)
  unfolding ◌>>=◌
  Returns-then m f km kf = record { at = λ w. Returned-continue f (m w) (km.at w) kf }

module _ {A B : Type 0} {Q : B → Type 0} where
  Returned-second :
      (f : A → Exec B) (r : Result A × World)
      → ((a : A) → Returns Q (f a))
      → Returned Q (continue f r).0
  Returned-second f (ok a, w) kf = (kf a).at w
  Returned-second f (err e, w) kf = tt

  pub Returns-bind :
      (m : Exec A) (f : A → Exec B) → ((a : A) → Returns Q (f a)) → Returns Q (m >>= f)
  unfolding ◌>>=◌
  Returns-bind m f kf = record { at = λ w. Returned-second f (m w) kf }

-- an operation that reads, and another that ends from the same database
module _ {A B : Type 0} (f : A → Exec B) (db : Database) where
  Finished-continue_read :
      (r : Result A × World)
      → Finished r.0
      → r.1.db ≡ db
      → ((a : A) (w : World) → w.db ≡ db → Finished (f a w).0)
      → Finished (continue f r).0
  Finished-continue_read (ok a, w) h same kf = kf a w same
  Finished-continue_read (err e, w) h same kf = h

  pub Finished-read :
      (m : Exec A) (w : World)
      → w.db ≡ db
      → Finishes m
      → Keeps false (λ d. d ≡ db) m
      → ((a : A) (w' : World) → w'.db ≡ db → Finished (f a w').0)
      → Finished ((m >>= f) w).0
  unfolding ◌>>=◌
  Finished-read m w same km reads kf =
      Finished-continue_read (m w) (km.at w)
        (reads.at w (record { answers = tt; holds = same })).holds kf

-- what an operation returns from one world
module _ {A : Type 0} (Q : A → Type 0) (w : World) where
  pub Returned-refuse_if :
      (b : Bool) (e : Error) (m : Exec A)
      → Returned Q (m w).0
      → Returned Q ((refuse_if b e >> m) w).0
  unfolding ◌>>=◌
  Returned-refuse_if true e m h = tt
  Returned-refuse_if false e m h = h

  pub Returned-query : (f : Database → A) → Q (f w.db) → Returned Q (query f w).0
  Returned-query f h =
      let (w', same, r) = query-cases f w in elim r [ inl got ↦ rw got h | inr lost ↦ rw lost tt ]

  pub Returned-wrap : (m : Exec A) → Returned Q (m w).0 → Returned Q (wrap m w).0
  unfolding wrap
  Returned-wrap m h = Returned-wrap_result Q (m w) h

module _ {A B : Type 0} (R : A → Type 0) (Q : B → Type 0) (w : World) where
  -- what the first operation returns from this world carries over to the second from any
  pub Returned-bind :
      (m : Exec A) (f : A → Exec B)
      → Returned R (m w).0
      → ((a : A) → R a → Returns Q (f a))
      → Returned Q ((m >>= f) w).0
  unfolding ◌>>=◌
  Returned-bind m f h kf = Returned-continue f (m w) h kf

module _ {A : Type 0} {Q : A → Type 0} where
  pub Returns-if :
      (b : Bool) (m n : Exec A) → Returns Q m → Returns Q n → Returns Q (if b then m else n)
  Returns-if true m n km kn = km
  Returns-if false m n km kn = kn

pub ruleset returns_rules = (Returns-pure, Returns-raise, Returns-wrap, Returns-bind)
