-- ===== src/Hashing/Iterate.antt =====
-- A pass over a list of indices, cell by cell.
use buffalo.Common.{
  ℕ, zero, suc, ◌+◌, ◌<◌, ◌==◌, if◌then◌else◌, ◌≡◌, refl, ap, ◌∙◌, List, [], ◌∷◌, arith, get_or,
  set, replicate, length, length-set, Bool-cases, inl, inr, ==_iff,
}
use native.Mathlib.Nat.{zero-add}
use native.Mathlib.Numerals.{one-add}

-- The value of cell `i`; the default is never read where the index is in range.
abbrev pub cell : List ℕ → ℕ → ℕ
cell t i = get_or t i 0

unfoldable pub iterate {ℓ} : {A : Type ℓ} → (A → A) → ℕ → A → A
iterate f zero x = x
iterate f (suc n) x = iterate f n (f x)

-- How often `i` stands in the list.
unfoldable pub count : ℕ → List ℕ → ℕ
count i [] = 0
count i (h ∷ hs) = (if h == i then 1 else 0) + count i hs

abbrev pub All {ℓ} : (ℕ → Type ℓ) → List ℕ → Type ℓ
All P [] = Unit
All P (h ∷ hs) = P h × All P hs

-- `t[h] = f(t[h])` for each index in turn.
unfoldable pub update_all : (ℕ → ℕ) → List ℕ → List ℕ → List ℕ
update_all f [] t = t
update_all f (h ∷ hs) t = update_all f hs (set t h (f (cell t h)))

pub length-update_all : (f : ℕ → ℕ) (hs t : List ℕ) → length (update_all f hs t) ≡ length t
unfolding update_all
length-update_all f [] t = refl
length-update_all f (h ∷ hs) t = length-update_all f hs _ ∙ length-set t h _

pub cell-set :
    (t : List ℕ) (i j v : ℕ) → i < length t → cell (set t i v) j ≡ (if i == j then v else cell t j)
cell-set [] i j v h = elim h [ ]
cell-set (x ∷ t) zero zero v h = refl
cell-set (x ∷ t) zero (suc j) v h = ground arith
cell-set (x ∷ t) (suc i) zero v h = ground arith
cell-set (x ∷ t) (suc i) (suc j) v h = ground (arith, cell-set t i j v)

pub cell-replicate : (n i : ℕ) → cell (replicate n 0) i ≡ 0
cell-replicate zero i = refl
cell-replicate (suc n) zero = refl
cell-replicate (suc n) (suc i) = cell-replicate n i

-- The bound carries over to a table of the same size.
pub All-lt-length :
    (hs t u : List ℕ)
    → length u ≡ length t
    → All (λ h. h < length t) hs
    → All (λ h. h < length u) hs
All-lt-length [] t u e b = tt
All-lt-length (h ∷ hs) t u e b = (omega arith, All-lt-length hs t u e b.1)

-- A cell of the result is the cell before, changed once for each time that its index is drawn.
pub cell-update_all :
    (f : ℕ → ℕ) (hs t : List ℕ) (i : ℕ)
    → All (λ h. h < length t) hs
    → cell (update_all f hs t) i ≡ iterate f (count i hs) (cell t i)
unfolding update_all iterate count
cell-update_all f [] t i b = refl
cell-update_all f (h ∷ hs) t i b =
    let u = set t h (f (cell t h)) in
    let later = cell-update_all f hs u i (All-lt-length hs t u (length-set t h _) b.1) in
    let here = cell-set t h i (f (cell t h)) b.0 in
    elim (Bool-cases (h == i)) [
      | inl same ↦
          rw (same, one-add)
            (later
              ∙ ap (iterate f (count i hs))
                  (here ∙ rw same (ap (λ k. f (cell t k)) ((==_iff h i).0 same))))
      | inr apart ↦ rw (apart, zero-add) (later ∙ ap (iterate f (count i hs)) (here ∙ rw apart))
    ]
