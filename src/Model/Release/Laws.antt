-- ===== src/Model/Release/Laws.antt =====
-- Tags without repetition, and tags and notes that are accepted (model/release.go).
use Prim.Native.Char.{code}
use Prim.Native.Nat.{Ordering}
use Prim.Native.Nat.{compare as compare_ℕ}
use deployments.Shared.{
  ℕ, ◌≤◌, String, ◌≡◌, refl, sym, ap, ◌∙◌, ◌↔◌, inl, inr, Bool, true, false, ◌||◌, none, some, List,
  [], ◌∷◌, ◌==◌, eq_iff, eq_refl, arith,
}
use text.Mathlib.TextEquality.{codes_equal}
use deployments.Shared.Tests.{ltb, Bool-cases}
use deployments.Shared.Lists.{All, any, length}
use deployments.Model.Release.{
  codes, width, bytes, codes_lt, text_lt, is_tag_character, validate_characters, validate_tag,
  validate_notes, index_func, compact, kept, dedup,
}
use deployments.Model.Release.Alphabet.{listed, All-listed}
use deployments.Model.Release.Dedup.{squeeze_from, dedup-squeeze}

codes_lt_total :
    (s t : String)
    → codes_lt (codes s) (codes t) ≡ false
    → codes_lt (codes t) (codes s) ≡ false
    → s ≡ t
codes_lt_total String.[] String.[] h k = refl
codes_lt_total String.[] (String.◌∷◌ c t) h k = absurd (cc)
codes_lt_total (String.◌∷◌ c s) String.[] h k = absurd (cc)
codes_lt_total (String.◌∷◌ b s) (String.◌∷◌ c t) h k =
    let here : compare_ℕ (code b) (code c) ≡ Ordering.eq = ground arith in
    let rest : s ≡ t = codes_lt_total s t (ground arith) (ground arith) in
    λ i. String.◌∷◌ (codes_equal b c here i) (rest i)

-- what is not before a later text is later too
pub codes_lt_trans :
    (a b c : List ℕ) → codes_lt a b ≡ true → codes_lt c b ≡ false → codes_lt a c ≡ true
codes_lt_trans [] [] c h k = absurd (cc)
codes_lt_trans [] (y ∷ b) [] h k = absurd (cc)
codes_lt_trans [] (y ∷ b) (z ∷ c) h k = refl
codes_lt_trans (x ∷ a) [] c h k = absurd (cc)
codes_lt_trans (x ∷ a) (y ∷ b) [] h k = absurd (cc)
codes_lt_trans (x ∷ a) (y ∷ b) (z ∷ c) h k = ground (arith, codes_lt_trans a b c)

-- no text comes before an earlier one
abbrev pub IsSorted : List String → Type 0
IsSorted [] = Unit
IsSorted (t ∷ ts) = All (λ u. text_lt u t ≡ false) ts × IsSorted ts

-- each text comes before the later ones
abbrev pub IsStrict : List String → Type 0
IsStrict [] = Unit
IsStrict (t ∷ ts) = All (λ u. text_lt t u ≡ true) ts × IsStrict ts

-- what the code relies on of sort.Slice with the order of texts
pub record Sorts (sort : List String → List String) : Type 0 where
  pub sorted : (l : List String) → IsSorted (sort l)
  pub members : (l : List String) (t : String) → any (λ u. u == t) (sort l) ≡ any (λ u. u == t) l

All-squeeze_from :
    (P : String → Type 0) (x : String) (ys : List String)
    → P x
    → All P ys
    → All P (squeeze_from x ys)
All-squeeze_from P x [] px pys = (px, tt)
All-squeeze_from P x (y ∷ ys) px pys = elim (Bool-cases (x == y)) [
  | inl same ↦ rw same (All-squeeze_from P x ys px pys.1)
  | inr other ↦ rw other (px, All-squeeze_from P y ys pys.0 pys.1)
]

above :
    (x y : String) (ys : List String)
    → text_lt x y ≡ true
    → All (λ u. text_lt u y ≡ false) ys
    → All (λ u. text_lt x u ≡ true) ys
above x y [] h hs = tt
above x y (z ∷ ys) h hs = (codes_lt_trans (codes x) (codes y) (codes z) h hs.0, above x y ys h hs.1)

squeeze-IsStrict :
    (x : String) (ys : List String)
    → All (λ u. text_lt u x ≡ false) ys
    → IsSorted ys
    → IsStrict (squeeze_from x ys)
squeeze-IsStrict x [] h hs = (tt, tt)
squeeze-IsStrict x (y ∷ ys) h hs = elim (Bool-cases (x == y)) [
  | inl same ↦ rw same (squeeze-IsStrict x ys h.1 hs.1)
  | inr other ↦
      let before : text_lt x y ≡ true = elim (Bool-cases (text_lt x y)) [
        | inl e ↦ e
        | inr e ↦ absurd (ground (arith, ap (λ t. x == t) (codes_lt_total x y e h.0), eq_refl x))
      ] in
      rw other (
        All-squeeze_from (λ u. text_lt x u ≡ true) y ys before (above x y ys before hs.0),
        squeeze-IsStrict y ys hs.0 hs.1,
      )
]

any-squeeze_from :
    (t x : String) (ys : List String)
    → any (λ u. u == t) (squeeze_from x ys) ≡ any (λ u. u == t) (x ∷ ys)
unfolding any
any-squeeze_from t x [] = refl
any-squeeze_from t x (y ∷ ys) = elim (Bool-cases (x == y)) [
  | inl same ↦ rw same (ground (arith, any-squeeze_from t x ys, eq_iff x y, eq_iff x t, eq_iff y t))
  | inr other ↦ rw other (ground (arith, any-squeeze_from t y ys))
]

some_member :
    (tags l : List String) (t : String) (ts : List String)
    → tags ≡ t ∷ ts
    → any (λ u. u == t) l ≡ any (λ u. u == t) tags
    → (s : String) × (r : List String) × (l ≡ s ∷ r)
unfolding any
some_member tags [] t ts e h =
    let none_there : false ≡ (t == t) || any (λ u. u == t) ts = rw e at h in
    absurd (ground (arith, eq_refl t))
some_member tags (s ∷ r) t ts e h = (s, r, refl)

-- Given a sort that sorts and keeps the members, removing the duplicates of tags, at least one,
-- ends well, and gives the same tags, each before the next in the order of texts: none is repeated.
pub dedup-IsStrict :
    (sort : List String → List String) (t : String) (ts : List String)
    → Sorts sort
    → (r : List String) × (dedup sort (t ∷ ts) ≡ some r)
      × IsStrict r
      × ((u : String) → any (λ v. v == u) r ≡ any (λ v. v == u) (t ∷ ts))
dedup-IsStrict sort t ts sorts =
    let (s, r, e) = some_member (t ∷ ts) (sort (t ∷ ts)) t ts refl (sorts.members (t ∷ ts) t) in
    let ordered : IsSorted (s ∷ r) = rw e at (sorts.sorted (t ∷ ts)) in
    (
      squeeze_from s r,
      dedup-squeeze sort (t ∷ ts) s r e,
      squeeze-IsStrict s r ordered.0 ordered.1,
      λ u. any-squeeze_from u s r ∙ ap (any (λ v. v == u)) (sym e) ∙ sorts.members (t ∷ ts) u,
    )

no_member : (l : List String) → ((t : String) → any (λ u. u == t) l ≡ false) → l ≡ []
unfolding any
no_member [] h = refl
no_member (t ∷ ts) h = absurd (ground (arith, h t, eq_refl t))

-- Removing the duplicates of tags ends in a slice out of bounds exactly when there are no tags, given
-- a sort that sorts and keeps the members.
pub dedup-none :
    (sort : List String → List String) (tags : List String)
    → Sorts sort
    → (dedup sort tags ≡ none) ↔ (tags ≡ [])
unfolding dedup compact kept any
dedup-none sort [] sorts =
    let empty = no_member (sort []) (λ t. sorts.members [] t) in ((λ h. refl), (λ h. rw empty refl))
dedup-none sort (t ∷ ts) sorts =
    let (r, e, strict, same) = dedup-IsStrict sort t ts sorts in
    ((λ h. absurd (cc)), (λ h. absurd (cc)))

width_one : (c : ℕ) → is_tag_character c ≡ true → width c ≡ 1
unfolding is_tag_character
width_one c h = ground arith

validate_characters-All :
    (cs : List ℕ) → (validate_characters cs ≡ none) ↔ All (λ c. is_tag_character c ≡ true) cs
unfolding validate_characters
validate_characters-All [] = ((λ h. tt), (λ h. refl))
validate_characters-All (c ∷ cs) = elim (Bool-cases (is_tag_character c)) [
  | inl fits ↦
      let rest = validate_characters-All cs in rw fits ((λ h. (refl, rest.0 h)), (λ h. rest.1 h.1))
  | inr other ↦ rw other ((λ h. absurd (cc)), (λ h. absurd (cc)))
]

bytes-length : (cs : List ℕ) → All (λ c. is_tag_character c ≡ true) cs → bytes cs ≡ length cs
bytes-length [] h = refl
bytes-length (c ∷ cs) h = omega (arith, width_one c h.0, bytes-length cs h.1)

-- A tag is accepted exactly when it has 1 to 1024 characters, each a letter or digit of ASCII, a dash,
-- an underscore or a dot.
pub validate_tag-All :
    (tag : String)
    → (validate_tag tag ≡ none) ↔ (
        All (λ c. listed c ≡ true) (codes tag)
        × (1 ≤ length (codes tag))
        × (length (codes tag) ≤ 1024))
unfolding validate_tag
validate_tag-All tag =
    let chars = validate_characters-All (codes tag) in
    (
      λ h.
          let fits = chars.0 (ground arith) in
          let measured = bytes-length (codes tag) fits in
          ((All-listed (codes tag)).0 fits, ground arith, ground arith),
      λ h.
          let fits = (All-listed (codes tag)).1 h.0 in
          let measured = bytes-length (codes tag) fits in
          let accepted = chars.1 fits in ground arith,
    )

-- Notes of a release that are not too long are accepted whatever follows a first character that is
-- not graphic.
pub validate_notes-none :
    (graphic : ℕ → Bool) (notes : String) (c : ℕ) (cs : List ℕ)
    → codes notes ≡ c ∷ cs
    → graphic c ≡ false
    → bytes (codes notes) ≤ 1024
    → validate_notes graphic notes ≡ none
unfolding validate_notes index_func
validate_notes-none graphic notes c cs e dark short =
    let fits : ltb 1024 (bytes (codes notes)) ≡ false = ground arith in rw (fits, e, dark) refl
