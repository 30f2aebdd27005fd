-- ===== src/Model/Release/Tests.antt =====
-- Tags and notes at concrete inputs (model/release.go), with a sort by insertion.
use deployments.Shared.{
  ℕ, ◌≤◌, String, ◌≡◌, refl, ◌∙◌, ◌↔◌, inl, inr, Bool, true, false, none, some, List, [], ◌∷◌, ◌==◌,
  arith,
}
use deployments.Shared.Tests.{if◌then◌else◌, Bool-cases, leb}
use deployments.Shared.Lists.{All, any, length}
use deployments.Model.Release
use deployments.Model.Release.{
  codes, text_lt, is_tag_character, validate_tag, validate_notes, dedup,
}
use deployments.Model.Release.Alphabet.{listed}
use deployments.Model.Release.Laws.{
  IsSorted, IsStrict, Sorts, codes_lt_trans, dedup-IsStrict, dedup-none, validate_tag-All,
  validate_notes-none,
}

abbrev insert : String → List String → List String
insert t [] = t ∷ []
insert t (u ∷ us) = if text_lt u t then u ∷ insert t us else t ∷ u ∷ us

abbrev sort : List String → List String
sort [] = []
sort (t ∷ ts) = insert t (sort ts)

codes_lt_asym : (a b : List ℕ) → Release.codes_lt a b ≡ true → Release.codes_lt b a ≡ false
codes_lt_asym [] [] h = cc
codes_lt_asym [] (y ∷ b) h = refl
codes_lt_asym (x ∷ a) [] h = absurd (cc)
codes_lt_asym (x ∷ a) (y ∷ b) h = ground (arith, codes_lt_asym a b)

not_before : (t u v : String) → text_lt u t ≡ false → text_lt v u ≡ false → text_lt v t ≡ false
not_before t u v h k = elim (Bool-cases (text_lt v t)) [
  | inr e ↦ e
  | inl e ↦ absurd (ground (arith, codes_lt_trans (codes v) (codes t) (codes u) e h))
]

All-not_before :
    (t u : String) (us : List String)
    → text_lt u t ≡ false
    → All (λ v. text_lt v u ≡ false) us
    → All (λ v. text_lt v t ≡ false) us
All-not_before t u [] h hs = tt
All-not_before t u (v ∷ us) h hs = (not_before t u v h hs.0, All-not_before t u us h hs.1)

All-insert :
    (P : String → Type 0) (t : String) (us : List String) → P t → All P us → All P (insert t us)
All-insert P t [] pt ps = (pt, tt)
All-insert P t (u ∷ us) pt ps = elim (Bool-cases (text_lt u t)) [
  | inl e ↦ rw e (ps.0, All-insert P t us pt ps.1)
  | inr e ↦ rw e (pt, ps)
]

insert-IsSorted : (t : String) (us : List String) → IsSorted us → IsSorted (insert t us)
insert-IsSorted t [] h = (tt, tt)
insert-IsSorted t (u ∷ us) h = elim (Bool-cases (text_lt u t)) [
  | inl e ↦ rw e (
    All-insert (λ v. text_lt v u ≡ false) t us (codes_lt_asym (codes u) (codes t) e) h.0,
    insert-IsSorted t us h.1,
  )
  | inr e ↦ rw e ((e, All-not_before t u us e h.0), h)
]

sort-IsSorted : (l : List String) → IsSorted (sort l)
sort-IsSorted [] = tt
sort-IsSorted (t ∷ ts) = insert-IsSorted t (sort ts) (sort-IsSorted ts)

any-insert :
    (v t : String) (us : List String) → any (λ u. u == v) (insert t us) ≡ any (λ u. u == v) (t ∷ us)
unfolding any
any-insert v t [] = refl
any-insert v t (u ∷ us) = elim (Bool-cases (text_lt u t)) [
  | inl e ↦ rw e (ground (arith, any-insert v t us))
  | inr e ↦ rw e refl
]

any-sort : (l : List String) (v : String) → any (λ u. u == v) (sort l) ≡ any (λ u. u == v) l
unfolding any
any-sort [] v = refl
any-sort (t ∷ ts) v = any-insert v t (sort ts) ∙ ground (arith, any-sort ts v)

sort-Sorts : Sorts sort
sort-Sorts = record { sorted = sort-IsSorted; members = any-sort }

dedup_runs : dedup sort ("b" ∷ "a" ∷ "b" ∷ []) ≡ some ("a" ∷ "b" ∷ [])
unfolding dedup
dedup_runs = refl

dedup-IsStrict_example :
    (r : List String) × (dedup sort ("b" ∷ "a" ∷ "b" ∷ []) ≡ some r)
    × IsStrict r
    × ((u : String) → any (λ v. v == u) r ≡ any (λ v. v == u) ("b" ∷ "a" ∷ "b" ∷ []))
dedup-IsStrict_example = dedup-IsStrict sort "b" ("a" ∷ "b" ∷ []) sort-Sorts

dedup-none_example : (dedup sort ("a" ∷ []) ≡ none) ↔ (◌≡◌ {A = List String} ("a" ∷ []) [])
dedup-none_example = dedup-none sort ("a" ∷ []) sort-Sorts

validate_tag-All_example : (validate_tag "v1.0" ≡ none) ↔ (
    All (λ c. listed c ≡ true) (codes "v1.0")
    × (1 ≤ length (codes "v1.0"))
    × (length (codes "v1.0") ≤ 1024))
validate_tag-All_example = validate_tag-All "v1.0"

abbrev printable : ℕ → Bool
printable c = leb 32 c

validate_notes-none_example : validate_notes printable "\na" ≡ none
validate_notes-none_example =
    validate_notes-none printable "\na" 10 (97 ∷ []) refl refl (omega arith)
