-- ===== src/Tests/Stretches.antt =====
-- lsfib.cc on a line of three nodes with a longer direct link, in numbers of ten decimals.
use native.Mathlib.Nat.{zero-div}
use buffalo.Common.{
  ℕ, zero, suc, ◌⊎◌, ◌+◌, ◌-◌, ◌*◌, ◌/◌, ◌^◌, ◌<◌, ltb, Bool, true, false, ◌≡◌, refl, List, [], ◌∷◌,
  Option, some, none, arith, inl, inr, Elem, length, replicate, length-replicate, Returns,
}
use buffalo.Lsfib.Main.{f_option, Topology, LinkRow, maxnode, set_options, set_option, main}
use buffalo.Lsfib.Run.{IsDouble}
use buffalo.Lsfib.Stretch.{main-Straight}
use buffalo.Lsfib.Read.{Fits}
use buffalo.Lsfib.Successor.{Within, Exhausted, Follows, next_choice-Follows}
use mathlib.Core.Option.{some-injective}
use buffalo.Lsfib.{Double, next_choice, carry, refill, enumerate}
use buffalo.ShortestPath.Hops.{NextHops, calc_shortest_path-NextHops}
use buffalo.ShortestPath.{Entry, Link, infinity, calc_shortest_path}
use buffalo.Tests.Networks.{link, old_table}

abbrev unit : ℕ
unit = 10 ^ 10

instance abbrev decimal : Double ℕ
decimal = record {
  nought = 0;
  one = unit;
  threshold = 1;
  thousandth = 10 ^ 7;
  large = 9999 * unit;
  of_int = λ k. k * unit;
  exp10_minus = λ k. unit / 10 ^ k;
  plus = λ x y. x + y;
  minus = λ x y. x - y;
  times = λ x y. x * y / unit;
  over = λ x y. x * unit / y;
  less = ltb;
}

decimal-IsDouble : IsDouble ℕ
decimal-IsDouble = record {
  one_times = λ x. omega arith;
  times_one = λ x. omega arith;
  nought_plus = λ x. omega arith;
  plus-of_int = λ a b room. omega arith;
  minus_self = λ a. omega arith;
  nought_over = λ a pos. zero-div (a * unit);
  less_irrefl = λ x. ground arith;
  one_likely = refl;
}

abbrev row : ℕ → ℕ → ℕ → LinkRow
row i j w = record { from = i; to = j; weight = w }

abbrev line : Topology
line = record {
  n = 3;
  nodes = (0, true) ∷ (1, false) ∷ (2, true) ∷ [];
  links = row 0 1 2 ∷ row 1 2 3 ∷ row 0 2 9 ∷ [];
}

line-Fits : Fits line
line-Fits = ground arith

abbrev blank : Entry
blank = record { length = 5; next = none }

main-Straight_example :
    Returns
      (λ t.
        ((x : ℕ) → Elem x t.outf → x ≡ 0)
        × (length t.outf ≡ t.flowcount)
        × (t.maxstretch ≡ 0)
        × (0 < t.flowcount → t.avgstretch ≡ 0))
      (main
        (λ scheme. line)
        (replicate maxnode false)
        (λ k. replicate k blank)
        infinity
        (f_option 10 ∷ []))
unfolding set_options set_option
main-Straight_example =
    main-Straight (λ scheme. line) (replicate maxnode false) (λ k. replicate k blank) infinity
      (f_option 10 ∷ []) decimal-IsDouble (length-replicate maxnode false)
      (λ k. length-replicate k blank) (omega arith) line-Fits refl

abbrev whole : List Link
whole = link 0 1 2 ∷ link 1 2 3 ∷ link 0 2 9 ∷ []

calc_shortest_path-NextHops_example :
    Returns (λ u. NextHops u 3) (calc_shortest_path old_table 3 3 whole)
calc_shortest_path-NextHops_example =
    calc_shortest_path-NextHops old_table 3 3 whole refl (omega arith) (ground arith) (ground arith)

-- A node with four neighbours at a rate of 1/1000: the choices of neighbours run out, and the
-- loop that carries counts up `choose[-1]`.
out_of_choices : next_choice 4 1 (3 ∷ []) ≡ none
unfolding next_choice carry
out_of_choices = refl

next_of_two : next_choice 4 2 (0 ∷ 3 ∷ []) ≡ some (true, 1 ∷ 2 ∷ [])
unfolding next_choice carry refill
next_of_two = refl

four_choose_two : enumerate 4 2 ≡ some 6
unfolding enumerate buffalo.Common.for
four_choose_two = refl

middle-Within : Within 4 2 2 (0 ∷ 3 ∷ [])
middle-Within zero c h e = omega (arith, some-injective _ _ e)
middle-Within (suc zero) c h e = omega (arith, some-injective _ _ e)
middle-Within (suc (suc j)) c h e = absurd (omega (arith, h))

next_choice-Follows_example :
    ((next_choice 4 2 (0 ∷ 3 ∷ []) ≡ none) × Exhausted 4 2 0 2 (0 ∷ 3 ∷ []))
    ⊎ ((zs : List ℕ) × (next_choice 4 2 (0 ∷ 3 ∷ []) ≡ some (true, zs))
        × (length zs ≡ 2)
        × Within 4 2 2 zs
        × Follows 4 2 (0 ∷ 3 ∷ []) zs)
next_choice-Follows_example = next_choice-Follows 4 2 (0 ∷ 3 ∷ []) refl (omega arith) middle-Within
