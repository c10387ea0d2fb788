-- ===== src/ShortestPath/Steps.antt =====
-- The table of the single steps that the links give.
use mathlib.Core.Option.{some-injective}
use buffalo.Common.{
  ℕ, zero, suc, ◌≤◌, ◌<◌, ◌≡◌, ◌≢◌, List, [], ◌∷◌, Option, none, some, arith, take,
}
use buffalo.ShortestPath.Setup.{AllExact, put_link, put_links}
use buffalo.ShortestPath.{Entry, Link, infinity, first_entry}

-- Links have a length, and one below that of a missing link.
abbrev pub AllWeighted : List Link → Type 0
AllWeighted [] = Unit
AllWeighted (l ∷ ls) = (0 < l.weight) × (l.weight < infinity) × AllWeighted ls

pub AllWeighted-AllExact : (ls : List Link) → AllWeighted ls → AllExact ls
AllWeighted-AllExact [] ok = tt
AllWeighted-AllExact (l ∷ ls) ok = (omega (arith, ok.1), AllWeighted-AllExact ls ok.2)

-- A table of single steps.
pub record Steps (d : ℕ → ℕ → Entry) : Type 0 where
  pub next_is : (a b k : ℕ) → (d a b).next ≡ some k → k ≡ b
  pub positive : (a b : ℕ) → a ≢ b → 0 < (d a b).length
  pub bounded : (a b : ℕ) → (d a b).length ≤ infinity
  pub linked : (a b k : ℕ) → (d a b).next ≡ some k → (d a b).length < infinity
  pub unlinked : (a b : ℕ) → (d a b).next ≡ none → (d a b).length ≡ infinity

pub first_entry-Steps : Steps first_entry
unfolding first_entry
first_entry-Steps = record {
  next_is = λ a b k. ground (arith, some-injective a k);
  positive = λ a b. ground arith;
  bounded = λ a b. ground arith;
  linked = λ a b k e. ground arith;
  unlinked = λ a b e. ground arith;
}

put_link-Steps_ends :
    (from to : Option ℕ) (w : ℕ) (d : ℕ → ℕ → Entry)
    → 0 < w
    → w < infinity
    → Steps d
    → Steps (put_link (record { from = from; to = to; weight = w }) d)
unfolding put_link
put_link-Steps_ends none to w d pos small s = record {
  next_is = s.next_is;
  positive = s.positive;
  bounded = s.bounded;
  linked = s.linked;
  unlinked = s.unlinked;
}
put_link-Steps_ends (some i) none w d pos small s = record {
  next_is = s.next_is;
  positive = s.positive;
  bounded = s.bounded;
  linked = s.linked;
  unlinked = s.unlinked;
}
put_link-Steps_ends (some i) (some j) w d pos small s = record {
  next_is = λ a b k. ground (arith, s.next_is a b k, some-injective i k, some-injective j k);
  positive = λ a b apart. ground (arith, s.positive a b apart, pos);
  bounded = λ a b. ground (arith, s.bounded a b, small);
  linked = λ a b k e. ground (arith, s.linked a b k, small);
  unlinked = λ a b e. ground (arith, s.unlinked a b);
}

pub put_links-Steps :
    (m : ℕ) (ls : List Link) (d : ℕ → ℕ → Entry)
    → AllWeighted ls
    → Steps d
    → Steps (put_links (take m ls) d)
unfolding put_links
put_links-Steps zero ls d ok s = s
put_links-Steps (suc m) [] d ok s = s
put_links-Steps (suc m) (l ∷ ls) d ok s =
    put_links-Steps m ls (put_link l d) ok.2
      (put_link-Steps_ends l.from l.to l.weight d ok.0 ok.1 s)
