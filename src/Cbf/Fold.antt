-- ===== src/Cbf/Fold.antt =====
-- The inner loop of `update_bf`: which counter each cell of the filter ends with.
use buffalo.Cbf.{copy_loop}
use buffalo.Common.{
  ℕ, zero, suc, ◌%◌, ◌≤◌, ◌<◌, ◌==◌, if◌then◌else◌, ◌≡◌, refl, ◌∙◌, List, Option, none, some, arith,
  set, length, length-set, for-Returns, Returns, Bool-cases, inl, inr, lt→ltb, ◌>>=◌,
}
use buffalo.FilterBank.{reduce}
use buffalo.Hashing.Draws.{get_elem?-cell}
use buffalo.Hashing.Iterate.{cell, cell-set}
use buffalo.Hashing.{Pointer, read, write}
use native.Mathlib.Nat.{mod-lt}

-- The last index below `k` that is `r` modulo `n`.
unfoldable pub latest : ℕ → ℕ → ℕ → Option ℕ
latest n zero r = none
latest n (suc k) r = if k % n == r then some k else latest n k r

-- A cell after `k` rounds: the counter at the last index that falls on it, or what it was.
unfoldable pub folded : ℕ → List ℕ → List ℕ → ℕ → ℕ → ℕ
folded n source t k r = elim (latest n k r) [ none ↦ cell t r | some j ↦ cell source j ]

abbrev pub Folded : ℕ → List ℕ → List ℕ → ℕ → Pointer → Type 0
Folded n source t k p =
    (u : List ℕ) × (p ≡ some u) × (length u ≡ n) × ((r : ℕ) → cell u r ≡ folded n source t k r)

reduce-suc : (j n : ℕ) → 0 < n → reduce j n ≡ some (j % n)
unfolding reduce
reduce-suc j zero h = elim h [ ]
reduce-suc j (suc n) h = refl

folded-suc :
    (n : ℕ) (source t : List ℕ) (j r : ℕ)
    → folded n source t (suc j) r ≡ (if j % n == r then cell source j else folded n source t j r)
unfolding folded latest
folded-suc n source t j r = elim (Bool-cases (j % n == r)) [
  | inl here ↦ rw (folded, latest, here) refl
  | inr apart ↦ rw (folded, latest, apart) refl
]

pub copy_loop-Folded :
    (n rounds : ℕ) (source t : List ℕ)
    → 0 < n
    → length t ≡ n
    → rounds ≤ length source
    → Returns (Folded n source t rounds) (copy_loop rounds n (some source) (some t))
unfolding copy_loop folded latest read write
copy_loop-Folded n rounds source t pos width enough =
    for-Returns (Folded n source t) rounds _ rounds 0 (some t) (omega arith)
      (λ j p lo hi (u, e, same, cells).
        let inside : j % n < length u = rw same (mod-lt j pos) in
        (
          some (set u (j % n) (cell source j)),
          rw (
            get_elem?-cell source j (omega arith),
            ◌>>=◌,
            reduce-suc j n pos,
            e,
            lt→ltb _ _ inside,
          ),
          (
            set u (j % n) (cell source j),
            refl,
            length-set u (j % n) (cell source j) ∙ same,
            λ r.
                rw
                  (cell-set u (j % n) r (cell source j) inside, folded-suc n source t j r, cells r),
          ),
        ))
      (t, refl, width, λ r. refl)
