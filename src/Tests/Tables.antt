-- ===== src/Tests/Tables.antt =====
-- A table with 10.0.0.0/8, 10.1.0.0/16 and 11.0.0.0/8, and addresses looked up in it.
use buffalo.Common.{◌<◌, ◌≡◌, refl, [], ◌∷◌, none, some, arith, Bool-cases, inl, inr}
use buffalo.Fib.Longest.{NoneLonger, linear_lookup-longest, linear_lookup-zero}
use buffalo.Common.Dict.{lookup}
use buffalo.Fib.{PrefixMap, find, linear_lookup}
use buffalo.Prefix.Contains.{IsValid}
use buffalo.Prefix.{Prefix, eq}

abbrev ten : Prefix
ten = record { addr = 0x0a00_0000; len = 8 }

abbrev ten_one : Prefix
ten_one = record { addr = 0x0a01_0000; len = 16 }

abbrev eleven : Prefix
eleven = record { addr = 0x0b00_0000; len = 8 }

abbrev table : PrefixMap
table = (ten, 1) ∷ (eleven, 3) ∷ (ten_one, 2) ∷ []

ten_one-IsValid : IsValid ten_one
ten_one-IsValid = record {
  positive = omega arith;
  short = omega arith;
  bits = omega arith;
  clear = refl;
}

nothing_longer : (q : Prefix) → 16 < q.len → find table q ≡ none
unfolding find lookup eq
nothing_longer q h = ground arith

found_two : find table ten_one ≡ some 2
unfolding find lookup eq
found_two = refl

linear_lookup-longest_example : linear_lookup table 0x0a01_0203 32 ≡ 2
linear_lookup-longest_example =
    linear_lookup-longest table 0x0a01_0203 (omega arith) ten_one 2 ten_one-IsValid refl found_two
      (λ q v c h. nothing_longer q h)

abbrev one_entry : PrefixMap
one_entry = (eleven, 3) ∷ []

not_eleven : NoneLonger one_entry 0x0a01_0203 (omega arith) 0
unfolding find lookup eq
not_eleven q v c h = elim (Bool-cases (eq eleven q)) [
  | inl same ↦
      let len : 8 ≡ q.len = ground arith in
      let addr : 0x0b00_0000 ≡ q.addr = ground arith in
      let apart = rw (← len, ← addr) at c in absurd (omega (arith, apart))
  | inr other ↦ rw other
]

linear_lookup-zero_example : linear_lookup one_entry 0x0a01_0203 32 ≡ 0
linear_lookup-zero_example = linear_lookup-zero one_entry 0x0a01_0203 (omega arith) not_eleven
