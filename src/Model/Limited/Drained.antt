-- ===== src/Model/Limited/Drained.antt =====
-- When a reader with limits reaches the end of a stream without an error (utils/io.go).
use deployments.Shared.{ℕ, ◌+◌, ◌≤◌, ◌≡◌, ◌↔◌, inl, inr, List, [], ◌∷◌, map, arith}
use deployments.Shared.Tests.{ltb, Bool-cases}
use deployments.Model.Limited.{Signal, more, eof, drain, early, read_exactly, read_at_most}

-- a stream that gives these numbers of bytes, and ends
abbrev pub stream : List ℕ → List (ℕ × Signal)
stream chunks = map (λ n. (n, more)) chunks

unfoldable pub sum : List ℕ → ℕ
sum [] = 0
sum (n ∷ ns) = n + sum ns

limits_reached :
    (count least most : ℕ)
    → count ≤ most
    → (early count least eof ≡ eof) ↔ ((least ≤ count + 0) × (count + 0 ≤ most))
limits_reached count least most h = (λ e. ground arith, λ e. ground arith)

drain-eof :
    (count least most : ℕ) (chunks : List ℕ)
    → count ≤ most
    → ((drain (record { count = count; at_least = least; at_most = most }) (stream chunks)).1 ≡ eof)
      ↔ ((least ≤ count + sum chunks) × (count + sum chunks ≤ most))
unfolding drain sum
drain-eof count least most [] h = limits_reached count least most h
drain-eof count least most (n ∷ ns) h = elim (Bool-cases (ltb most (count + n))) [
  | inl beyond ↦
      rw beyond (λ e. absurd (ground (arith, e)), λ b. absurd (ground (arith, b, beyond)))
  | inr within ↦ rw within (
      let rest = drain-eof (count + n) least most ns (ground (arith, within)) in
      (
        λ e. (omega (arith, rest.0 e), omega (arith, rest.0 e)),
        λ b. rest.1 (omega (arith, b), omega (arith, b)),
      ))
]

-- Reading a stream that ends without an error through a reader of an exact size reaches its end without
-- an error exactly if it has that size, and through a reader of a largest size exactly if it has at
-- most that size.
pub drain-limits :
    (size : ℕ) (chunks : List ℕ)
    → (((drain (read_exactly size) (stream chunks)).1 ≡ eof) ↔ (sum chunks ≡ size))
      × (((drain (read_at_most size) (stream chunks)).1 ≡ eof) ↔ (sum chunks ≤ size))
unfolding read_exactly read_at_most
drain-limits size chunks =
    let exact = drain-eof 0 size size chunks (omega arith) in
    let most = drain-eof 0 0 size chunks (omega arith) in
    (
      (λ e. omega (arith, exact.0 e), λ e. exact.1 (omega arith, omega arith)),
      (λ e. omega (arith, most.0 e), λ e. most.1 (omega arith, omega arith)),
    )
