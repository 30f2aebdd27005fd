-- ===== src/Store/Mongo/Order.antt =====
-- The order that a query's sort puts on documents, as a test.
use deployments.Shared.{◌≡◌, refl, Bool, true, false, List, [], ◌∷◌, arith}
use deployments.Shared.Tests.{leb}
use deployments.Shared.Lists.{All}
use deployments.Store.Mongo.{Sort, natural, ascending, descending, Before}

abbrev pub before : {D : Type 0} → Sort D → D → D → Bool
before natural d e = true
before (ascending key) d e = leb (key d) (key e)
before (descending key) d e = leb (key e) (key d)

pub before→Before : {D : Type 0} (s : Sort D) (d e : D) → before s d e ≡ true → Before s d e
before→Before natural d e h = tt
before→Before (ascending key) d e h = ground arith
before→Before (descending key) d e h = ground arith

pub not_before→Before : {D : Type 0} (s : Sort D) (d e : D) → before s d e ≡ false → Before s e d
not_before→Before natural d e h = tt
not_before→Before (ascending key) d e h = ground arith
not_before→Before (descending key) d e h = ground arith

pub Before-trans :
    {D : Type 0} (s : Sort D) (d e f : D) → Before s d e → Before s e f → Before s d f
Before-trans natural d e f h k = tt
Before-trans (ascending key) d e f h k = omega arith
Before-trans (descending key) d e f h k = omega arith

pub Before-refl : {D : Type 0} (s : Sort D) (d : D) → Before s d d
Before-refl natural d = tt
Before-refl (ascending key) d = omega arith
Before-refl (descending key) d = omega arith

pub weaken-All :
    {D : Type 0} {P Q : D → Type 0} → ((d : D) → P d → Q d) → (ds : List D) → All P ds → All Q ds
weaken-All f [] h = tt
weaken-All f (d ∷ ds) h = (f d h.0, weaken-All f ds h.1)

pub Before→before : {D : Type 0} (s : Sort D) (d e : D) → Before s d e → before s d e ≡ true
Before→before natural d e h = refl
Before→before (ascending key) d e h = ground arith
Before→before (descending key) d e h = ground arith
