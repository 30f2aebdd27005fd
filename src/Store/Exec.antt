-- ===== src/Store/Exec.antt =====
-- Operations that read and change the world and may fail. What was written before an error stays
-- written, so the world comes back beside the error too.
pub mod Keeps
pub mod Raises
pub mod Returns
use deployments.Shared.{
  ℕ, suc, ◌≡◌, ap, String, Bool, true, false, Option, none, some, List, [], ◌∷◌,
}
use deployments.Store.Errors.{Error, Result, ok, err, driver, wrapped}
use deployments.Store.World.{World, Database, Fault, answered, lost_request, lost_reply}

abbrev pub Exec : Type 0 → Type 0
Exec A = World → Result A × World

unfoldable pub pure : {A : Type 0} → A → Exec A
pure a w = (ok a, w)

unfoldable pub raise : {A : Type 0} → Error → Exec A
raise e w = (err e, w)

abbrev pub continue : {A B : Type 0} → (A → Exec B) → Result A × World → Result B × World
continue f (ok a, w) = f a w
continue f (err e, w) = (err e, w)

-- `if test { return e }`
unfoldable pub refuse_if : Bool → Error → Exec (Unit {0})
refuse_if true e w = (err e, w)
refuse_if false e w = (ok tt, w)

unfoldable pub or_raise : {A : Type 0} → Error → Option A → Exec A
or_raise e none w = (err e, w)
or_raise e (some a) w = (ok a, w)

-- errors.Wrap on the way out
abbrev pub wrap_result : {A : Type 0} → Result A × World → Result A × World
wrap_result (ok a, w) = (ok a, w)
wrap_result (err e, w) = (err (wrapped e), w)

unfoldable pub wrap : {A : Type 0} → Exec A → Exec A
wrap m w = wrap_result (m w)

-- an error that is only logged
abbrev pub logged_result : {A : Type 0} → Result A × World → Result (Unit {0}) × World
logged_result (r, w) = (ok tt, w)

unfoldable pub logged : {A : Type 0} → Exec A → Exec (Unit {0})
logged m w = logged_result (m w)

-- an error as a value: `r, err := ...`
abbrev pub attempt_result : {A : Type 0} → Result A × World → Result (Result A) × World
attempt_result (r, w) = (ok r, w)

unfoldable pub attempt : {A : Type 0} → Exec A → Exec (Result A)
attempt m w = attempt_result (m w)

-- `return r, err`
unfoldable pub give_back : {A : Type 0} → Result A → Exec A
give_back r w = (r, w)

-- one call of the database, given what happens to it
deliver : {A : Type 0} → (Database → A × Database) → List Fault → Exec A
deliver f [] w = (ok (f w.db).0, record w { db = (f w.db).1 })
deliver f (answered ∷ fs) w = (ok (f w.db).0, record w { db = (f w.db).1; faults = fs })
deliver f (lost_request ∷ fs) w = (err driver, record w { faults = fs })
deliver f (lost_reply ∷ fs) w = (err driver, record w { db = (f w.db).1; faults = fs })

-- a call that may change the database
unfoldable pub command : {A : Type 0} → (Database → A × Database) → Exec A
unfolding deliver
command f w = deliver f w.faults w

-- a call that only reads
unfoldable pub query : {A : Type 0} → (Database → A) → Exec A
unfolding command
query f = command (λ db. (f db, db))

-- time.Now()
unfoldable pub time_now : Exec ℕ
time_now w = (ok (w.times w.reads), record w { reads = suc w.reads })

-- uuid.NewRandom()
unfoldable pub new_uuid : Exec String
new_uuid w = (ok (w.uuids w.drawn), record w { drawn = suc w.drawn })

-- the tenant of the request's identity
unfoldable pub tenant_of_request : Exec String
tenant_of_request w = (ok w.tenant, w)

-- Opening this opens every way above to build an operation.
infixl 5 ◌>>=◌ ◌>>◌
unfoldable pub ◌>>=◌ : {A B : Type 0} → Exec A → (A → Exec B) → Exec B
unfolding pure raise refuse_if or_raise wrap logged attempt give_back command query time_now
    new_uuid tenant_of_request
◌>>=◌ m f w = continue f (m w)

abbrev pub ◌>>◌ : {A B : Type 0} → Exec A → Exec B → Exec B
m >> k = m >>= λ _. k

-- a call that the database answers
pub command-answered :
    {A : Type 0} (f : Database → A × Database) (w : World)
    → w.faults ≡ []
    → command f w ≡ (ok (f w.db).0, record w { db = (f w.db).1 })
unfolding command
command-answered f w calm = ap (λ fs. deliver f fs w) calm
