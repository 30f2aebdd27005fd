-- ===== src/Model/Limited.antt =====
-- The readers with limits (utils/io.go). What is behind a reader is what its reads give: a number of
-- bytes each time, with nothing, with the end of the stream or with an error.
pub mod Drained
use deployments.Shared.{ℕ, zero, ◌+◌, List, [], ◌∷◌}
use deployments.Shared.Tests.{if◌then◌else◌, ltb}

pub data Signal : Type 0 where
  more eof failed stream_too_large unexpected_eof : Signal

pub record LimitedReader : Type 0 where
  pub count : ℕ
  pub at_least : ℕ
  pub at_most : ℕ

unfoldable pub read_exactly : ℕ → LimitedReader
read_exactly size = record { count = 0; at_least = size; at_most = size }

unfoldable pub read_at_most : ℕ → LimitedReader
read_at_most size = record { count = 0; at_least = 0; at_most = size }

abbrev early : ℕ → ℕ → Signal → Signal
early n least eof = if ltb n least then unexpected_eof else eof
early n least s = s

-- Read: the signal of the read behind it, unless the number of bytes is against the limits
unfoldable pub read : LimitedReader → ℕ × Signal → LimitedReader × Signal
read l (n, s) =
    let total = l.count + n in
    (
      record l { count = total },
      if ltb l.at_most total then stream_too_large else early total l.at_least s,
    )

-- a signal that is not `more` ends the reading
abbrev ended : ℕ → Signal → ℕ × Signal → ℕ × Signal
ended n more after = after
ended n s after = (n, s)

-- io.ReadAll and io.Copy: reads until a signal; a stream whose reads are over has ended. The result is
-- what Count gives, and the signal.
unfoldable pub drain : LimitedReader → List (ℕ × Signal) → ℕ × Signal
unfolding read
drain l [] = (l.count, early l.count l.at_least eof)
drain l (r ∷ rest) = let (l', s) = read l r in let after = drain l' rest in ended l'.count s after
