-- ===== src/Model/Release/Dedup.antt =====
-- Dedup of Tags against a plain recursion (model/release.go).
use deployments.Shared.{
  ℕ, suc, ◌+◌, String, ◌≡◌, refl, sym, ap, ◌∙◌, inl, inr, some, List, [], ◌∷◌, ◌++◌, ◌==◌, eq_refl,
  arith,
}
use mathlib.Core.List.{append_assoc}
use deployments.Shared.Tests.{if◌then◌else◌, Bool-cases}
use deployments.Shared.Lists.{length, take}
use deployments.Shared.Arrays.{get_elem?, set, get_elem?-append, length-append}
use deployments.Model.Release.{compact, kept, dedup}

-- runs of equal tags become one
abbrev pub squeeze_from : String → List String → List String
squeeze_from x [] = x ∷ []
squeeze_from x (y ∷ ys) = if x == y then squeeze_from x ys else x ∷ squeeze_from y ys

abbrev pub squeeze : List String → List String
squeeze [] = []
squeeze (x ∷ xs) = squeeze_from x xs

take_through :
    (done : List String) (x : String) (rest : List String)
    → take (suc (length done)) (done ++ x ∷ rest) ≡ done ++ x ∷ []
take_through [] x rest = refl
take_through (d ∷ done) x rest = rw (take_through done x rest) refl

read_next :
    (done : List String) (x : String) (junk : List String) (y : String) (rest : List String)
    → get_elem? (done ++ x ∷ (junk ++ y ∷ rest)) (suc (length done + length junk)) ≡ some y
read_next [] x junk y rest =
    let same : 0 + length junk ≡ length junk = omega arith in rw same (get_elem?-append junk y rest)
read_next (d ∷ done) x junk y rest =
    let same : suc (length done) + length junk ≡ suc (length done + length junk) = omega arith in
    rw same (read_next done x junk y rest)

write_next :
    (done : List String) (x k y : String) (rest : List String)
    → set (done ++ x ∷ (k ∷ rest)) (suc (length done)) y ≡ done ++ x ∷ (y ∷ rest)
write_next [] x k y rest = refl
write_next (d ∷ done) x k y rest = rw (write_next done x k y rest) refl

-- the tags that are not needed once `y` is kept
abbrev junk_after : List String → String → List String
junk_after [] y = []
junk_after (k ∷ ks) y = ks ++ y ∷ []

kept_next :
    (done : List String) (x : String) (junk : List String) (y : String) (rest : List String)
    → set (done ++ x ∷ (junk ++ y ∷ rest)) (suc (length done)) y
      ≡ (done ++ x ∷ []) ++ y ∷ (junk_after junk y ++ rest)
kept_next done x [] y rest =
    write_next done x y y rest ∙ sym (append_assoc done (x ∷ []) (y ∷ rest))
kept_next done x (k ∷ ks) y rest = write_next done x k y (ks ++ y ∷ rest) ∙ simp append_assoc

length-junk_after : (junk : List String) (y : String) → length (junk_after junk y) ≡ length junk
length-junk_after [] y = refl
length-junk_after (k ∷ ks) y = length-append ks (y ∷ []) ∙ omega arith

-- In the middle of the loop, the slice holds the kept tags, the last of which is `x`, tags that are
-- no longer needed, and the tags that are not read yet.
compact-squeeze :
    (done : List String) (x : String) (junk rest : List String) (s : List String) (i j : ℕ)
    → s ≡ done ++ x ∷ (junk ++ rest)
    → i ≡ length done
    → j ≡ suc (length done + length junk)
    → let end = compact (length rest) s i j in take (suc end.1) end.0 ≡ done ++ squeeze_from x rest
unfolding compact
compact-squeeze done x junk [] s i j es ei ej = rw (es, ei) (take_through done x (junk ++ []))
compact-squeeze done x junk (y ∷ rest) s i j es ei ej =
    let first : get_elem? s i ≡ some x = rw (es, ei) (get_elem?-append done x (junk ++ y ∷ rest)) in
    let second : get_elem? s j ≡ some y = rw (es, ej) (read_next done x junk y rest) in
    elim (Bool-cases (x == y)) [
      | inl same ↦
          rw (first, second, same)
            (compact-squeeze done x (junk ++ y ∷ []) rest s i (suc j) (rw es (simp append_assoc)) ei
              (omega (arith, ej, length-append junk (y ∷ []))))
      | inr other ↦
          rw (first, second, other)
            (compact-squeeze (done ++ x ∷ []) y (junk_after junk y) rest _ (suc i) (suc j)
                (rw (es, ei) (kept_next done x junk y rest))
                (omega (arith, ei, length-append done (x ∷ [])))
                (omega (arith, ej, length-append done (x ∷ []), length-junk_after junk y))
              ∙ append_assoc done (x ∷ []) (squeeze_from y rest))
    ]

squeeze_head : (x : String) (ys : List String) → (us : List String) × (squeeze_from x ys ≡ x ∷ us)
squeeze_head x [] = ([], refl)
squeeze_head x (y ∷ ys) = elim (Bool-cases (x == y)) [
  | inl same ↦ rw same (squeeze_head x ys)
  | inr other ↦ rw other (squeeze_from y ys, refl)
]

kept-take :
    (s : List String) (i : ℕ) (u : String) (us : List String)
    → take (suc i) s ≡ u ∷ us
    → kept s i ≡ some (u ∷ us)
unfolding kept
kept-take [] i u us e = absurd (cc)
kept-take (t ∷ ts) i u us e = ap some e

-- the loop of Dedup, from its start
pub dedup-squeeze :
    (sort : List String → List String) (tags : List String) (t : String) (ts : List String)
    → sort tags ≡ t ∷ ts
    → dedup sort tags ≡ some (squeeze_from t ts)
unfolding dedup compact
dedup-squeeze sort tags t ts e =
    let (us, head) = squeeze_head t ts in
    let looped = compact-squeeze [] t [] ts (t ∷ ts) 0 1 refl refl refl in
    rw (e, eq_refl)
      (kept-take (compact (length ts) (t ∷ ts) 0 1).0 (compact (length ts) (t ∷ ts) 0 1).1 t us
          (looped ∙ head)
        ∙ sym (ap some head))
