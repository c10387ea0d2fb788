-- ===== src/Hashing/Marks.antt =====
-- A table whose nonzero cells are the indices of a list, and what `contains` answers on it.
use buffalo.Common.{
  ℕ, ◌+◌, ◌<◌, ◌==◌, if◌then◌else◌, ◌≡◌, refl, List, [], ◌∷◌, ◌++◌, arith, length, zero, suc, false,
  ◌&&◌,
}
use buffalo.Hashing.Draws.{hits}
use buffalo.Hashing.Iterate.{cell, count, All, update_all, cell-update_all, iterate}

-- Cell `i` is empty exactly when `i` is not in the list.
abbrev pub Marks : List ℕ → List ℕ → Type 0
Marks t used = (i : ℕ) → (cell t i == 0) ≡ (count i used == 0)

-- 1 if every index of the first list stands in the second, and 0 if not.
unfoldable pub covered : List ℕ → List ℕ → ℕ
covered [] used = 1
covered (h ∷ hs) used = if count h used == 0 then 0 else covered hs used

pub hits-covered : (hs t used : List ℕ) → Marks t used → hits hs t ≡ covered hs used
unfolding hits covered
hits-covered [] t used m = refl
hits-covered (h ∷ hs) t used m = rw (m h, hits-covered hs t used m)

pub count-append : (i : ℕ) (xs ys : List ℕ) → count i (xs ++ ys) ≡ count i xs + count i ys
unfolding count
count-append i [] ys = omega arith
count-append i (x ∷ xs) ys = omega (arith, count-append i xs ys)

pub covered_of_count :
    (hs used : List ℕ) → ((i : ℕ) → 0 < count i hs → 0 < count i used) → covered hs used ≡ 1
unfolding covered count
covered_of_count [] used h = refl
covered_of_count (x ∷ hs) used h =
    ground (arith, h x, covered_of_count hs used (λ i q. h i (omega arith)))

pub count_of_covered :
    (hs used : List ℕ) (i : ℕ) → covered hs used ≡ 1 → 0 < count i hs → 0 < count i used
unfolding covered count
count_of_covered [] used i e h = absurd (omega arith)
count_of_covered (x ∷ hs) used i e h = ground (arith, count_of_covered hs used i)

iterate-eq-zero :
    (f : ℕ → ℕ) (n x : ℕ)
    → ((c : ℕ) → (f c == 0) ≡ false)
    → (iterate f n x == 0) ≡ (n == 0 && x == 0)
unfolding iterate
iterate-eq-zero f zero x nonzero = refl
iterate-eq-zero f (suc n) x nonzero = ground (arith, iterate-eq-zero f n (f x) nonzero, nonzero x)

-- A pass by a function that never gives 0 adds its indices.
pub update_all-Marks :
    (f : ℕ → ℕ) (hs t used : List ℕ)
    → ((c : ℕ) → (f c == 0) ≡ false)
    → All (λ h. h < length t) hs
    → Marks t used
    → Marks (update_all f hs t) (hs ++ used)
update_all-Marks f hs t used nonzero b m i =
    rw (cell-update_all f hs t i b, count-append i hs used)
      (ground (arith, iterate-eq-zero f (count i hs) (cell t i) nonzero, m i))
