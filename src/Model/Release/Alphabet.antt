-- ===== src/Model/Release/Alphabet.antt =====
-- The characters of a tag (Validate of a Tag in model/release.go), by the list of them.
use deployments.Shared.{
  ℕ, zero, suc, ◌≤◌, String, ◌≡◌, refl, sym, ◌∙◌, ◌↔◌, inl, inr, Bool, true, false, not, ◌&&◌, List,
  [], ◌∷◌, arith,
}
use deployments.Shared.Tests.{ltb, nat_eq, nat_eq_iff, Bool-cases}
use deployments.Shared.Lists.{All, any}
use deployments.Model.Release.{codes, is_tag_character}

-- the characters of a tag
abbrev pub tag_alphabet : String
tag_alphabet = "ABCDEFGHIJKLMNOPQRSTUVWXYZabcdefghijklmnopqrstuvwxyz0123456789-_."

abbrev pub listed : ℕ → Bool
listed c = any (λ a. nat_eq a c) (codes tag_alphabet)

same_bool : Bool → Bool → Bool
same_bool true b = b
same_bool false b = not b

same_bool-eq : (a b : Bool) → same_bool a b ≡ true → a ≡ b
unfolding same_bool
same_bool-eq a b h = ground arith

agree_below : ℕ → Bool
agree_below zero = true
agree_below (suc n) = same_bool (is_tag_character n) (listed n) && agree_below n

agree : (n c : ℕ) → agree_below n ≡ true → suc c ≤ n → is_tag_character c ≡ listed c
unfolding agree_below
agree zero c h below = absurd (omega arith)
agree (suc n) c h below = elim (Bool-cases (nat_eq c n)) [
  | inl last ↦
      rw ((nat_eq_iff c n).0 last) (same_bool-eq (is_tag_character n) (listed n) (ground arith))
  | inr earlier ↦ agree n c (ground arith) (ground arith)
]

is_tag_character-large : (c : ℕ) → 128 ≤ c → is_tag_character c ≡ false
unfolding is_tag_character
is_tag_character-large c h = ground arith

small_list :
    (c : ℕ) (rest : List ℕ) → All (λ a. suc a ≤ c) rest → any (λ a. nat_eq a c) rest ≡ false
unfolding any
small_list c [] h = refl
small_list c (a ∷ rest) h = ground (arith, small_list c rest h.1)

below : ℕ → List ℕ → Bool
below n [] = true
below n (a ∷ rest) = ltb a n && below n rest

below-All : (n c : ℕ) (rest : List ℕ) → n ≤ c → below n rest ≡ true → All (λ a. suc a ≤ c) rest
unfolding below
below-All n c [] h k = tt
below-All n c (a ∷ rest) h k = (ground arith, below-All n c rest h (ground arith))

is_tag_character-listed : (c : ℕ) → is_tag_character c ≡ listed c
unfolding agree_below is_tag_character same_bool any below
is_tag_character-listed c = elim (Bool-cases (ltb c 128)) [
  | inl small ↦ agree 128 c refl (ground arith)
  | inr large ↦
      is_tag_character-large c (ground arith)
      ∙ sym (
          small_list c (codes tag_alphabet)
            (below-All 128 c (codes tag_alphabet) (ground arith) refl))
]

pub All-listed :
    (cs : List ℕ) → All (λ c. is_tag_character c ≡ true) cs ↔ All (λ c. listed c ≡ true) cs
All-listed [] = ((λ h. tt), (λ h. tt))
All-listed (c ∷ cs) =
    let rest = All-listed cs in
    (
      (λ h. (sym (is_tag_character-listed c) ∙ h.0, rest.0 h.1)),
      (λ h. (is_tag_character-listed c ∙ h.0, rest.1 h.1)),
    )
