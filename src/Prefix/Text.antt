-- ===== src/Prefix/Text.antt =====
-- util.c: `str2ip`, over the numbers that `sscanf` finds in the text, in order.
-- A number that is missing leaves a variable without a value. `%d` reads an `int`: a negative one,
-- or one of 2^31 and more, is left out. The sum of doubles is exact; a sum of 2^32 or more has no
-- value as a `uint32_t`.
use buffalo.Common.{ℕ, ◌+◌, ◌*◌, ◌^◌, List, ◌∷◌, Option, none, some, ltb, if◌then◌else◌}

pub record Quad : Type 0 where
  pub a : ℕ
  pub b : ℕ
  pub c : ℕ
  pub d : ℕ

-- `(uint32_t)(a*(exp2(24)) + b*(exp2(16)) + c*(exp2(8)) + d)`
unfoldable pub quad_address : Quad → Option ℕ
quad_address q =
    let sum = q.a * 2 ^ 24 + q.b * 2 ^ 16 + q.c * 2 ^ 8 + q.d in
    if ltb sum (2 ^ 32) then some sum else none

unfoldable pub str2ip : List ℕ → Option ℕ
unfolding quad_address
str2ip (a ∷ b ∷ c ∷ d ∷ more) = quad_address (record { a = a; b = b; c = c; d = d })
str2ip text = none
