-- ===== src/Model/Link/Texts.antt =====
-- The texts of the states of an upload link (MarshalText and UnmarshalText of model/link.go).
use Prim.Native.Nat.{bit_and}
use mathlib.Core.Path.{subst}
use deployments.Shared.{ℕ, ◌≡◌, refl, sym, ap, inl, inr, ◌∙◌, String, true, Option, none, some}
use deployments.Shared.Tests.{nat_eq, nat_eq_iff, Bool-cases}
use deployments.Model.Link.{marshal_link_status, unmarshal_link_status, link_status_processed_mask}

from_some : String → Option String → String
from_some a none = a
from_some a (some t) = t

some_text : {a t : String} → some a ≡ some t → a ≡ t
unfolding from_some
some_text {a} e = ap (from_some a) e

reads :
    (to_lower : String → String) (a text : String) (n s : ℕ)
    → some a ≡ some text
    → to_lower text ≡ text
    → (to_lower a ≡ a → unmarshal_link_status to_lower a ≡ some n)
    → nat_eq s n ≡ true
    → unmarshal_link_status to_lower text ≡ some s
reads to_lower a text n s written lower read same =
    let e : a ≡ text = some_text written in
    subst (λ t. unmarshal_link_status to_lower t ≡ some s) e
      (read (subst (λ t. to_lower t ≡ t) (sym e) lower) ∙ ap some (sym ((nat_eq_iff s n).0 same)))

-- A status of a link that is written as a text is read from it again without the bit of the
-- processed ones, if strings.ToLower leaves the text as it is.
pub unmarshal-marshal_link_status :
    (to_lower : String → String) (status : ℕ) (text : String)
    → marshal_link_status status ≡ some text
    → to_lower text ≡ text
    → unmarshal_link_status to_lower text ≡ some (bit_and status link_status_processed_mask)
unfolding marshal_link_status unmarshal_link_status
unmarshal-marshal_link_status to_lower status text written lower =
    let s = bit_and status link_status_processed_mask in
    elim (Bool-cases (nat_eq s 0)) [
      | inl at_0 ↦
          reads to_lower "pending" text 0 s (rw at_0 at written) lower (λ l. rw l refl) at_0
      | inr not_0 ↦ elim (Bool-cases (nat_eq s 16)) [
        | inl at_16 ↦
            reads to_lower "processing" text 16 s (rw (not_0, at_16) at written) lower
              (λ l. rw l refl) at_16
        | inr not_16 ↦ elim (Bool-cases (nat_eq s 32)) [
          | inl at_32 ↦
              reads to_lower "completed" text 32 s (rw (not_0, not_16, at_32) at written) lower
                (λ l. rw l refl) at_32
          | inr not_32 ↦ elim (Bool-cases (nat_eq s 48)) [
            | inl at_48 ↦
                reads to_lower "aborted" text 48 s (rw (not_0, not_16, not_32, at_48) at written)
                  lower (λ l. rw l refl) at_48
            | inr not_48 ↦
                let unnamed : none ≡ some text = rw (not_0, not_16, not_32, not_48) at written in
                absurd cc
          ]
        ]
      ]
    ]
