-- ===== src/Shared/Distinct.antt =====
-- Lists of texts without repetition, and how long they can be.
use Prim.Native.Nat.{suc, ◌≤◌}
use Prim.Native.String.{String}
use mathlib.Core.Path.{◌≡◌, refl}
use mathlib.Core.Bool.{Bool, true, false}
use mathlib.Core.Logic.{inl, inr}
use mathlib.Core.List.{List, [], ◌∷◌}
use native.Mathlib.Omega.{arith}
use text.Mathlib.Text.{◌==◌}
use text.Mathlib.TextEquality.{eq_iff}
use deployments.Shared.Tests.{if◌then◌else◌, Bool-cases}
use deployments.Shared.Lists.{All, any, length}

abbrev pub has : String → List String → Bool
has t ts = any (λ u. u == t) ts

abbrev pub IsDistinct : List String → Type 0
IsDistinct [] = Unit
IsDistinct (t ∷ ts) = (has t ts ≡ false) × IsDistinct ts

-- the list without the first such text
remove : String → List String → List String
remove t [] = []
remove t (u ∷ ts) = if u == t then ts else u ∷ remove t ts

length-remove :
    (t : String) (ts : List String) → has t ts ≡ true → suc (length (remove t ts)) ≡ length ts
unfolding remove any
length-remove t [] h = cc
length-remove t (u ∷ ts) h = elim (Bool-cases (u == t)) [
  | inl same ↦ rw same refl
  | inr other ↦ ground (arith, length-remove t ts)
]

has-remove :
    (v t : String) (ts : List String)
    → (v == t) ≡ false
    → has v ts ≡ true
    → has v (remove t ts) ≡ true
unfolding remove any
has-remove v t [] other h = h
has-remove v t (u ∷ ts) other h = elim (Bool-cases (u == t)) [
  | inl same ↦ rw same (ground (arith, eq_iff u t, eq_iff u v, eq_iff v t))
  | inr differ ↦ rw differ (ground (arith, has-remove v t ts other))
]

All-has-remove :
    (t : String) (m ts : List String)
    → has t ts ≡ false
    → All (λ v. has v m ≡ true) ts
    → All (λ v. has v (remove t m) ≡ true) ts
unfolding any
All-has-remove t m [] out h = tt
All-has-remove t m (v ∷ ts) out h =
    (has-remove v t m (ground (arith, out)) h.0, All-has-remove t m ts (ground (arith, out)) h.1)

-- distinct texts that are all in a list are no more than the list is long
pub distinct-length :
    (ts m : List String) → IsDistinct ts → All (λ t. has t m ≡ true) ts → length ts ≤ length m
distinct-length [] m d h = omega arith
distinct-length (t ∷ ts) m d h =
    let shorter = distinct-length ts (remove t m) d.1 (All-has-remove t m ts d.0 h.1) in
    omega (arith, shorter, length-remove t m h.0)
