-- ===== src/ShortestPath/Closure.antt =====
-- All rounds: the lengths are least over all walks, and each is the length of a walk whose first
-- step is `next`.
use buffalo.Common.{
  ℕ, zero, suc, ◌+◌, ◌*◌, ◌^◌, ◌≤◌, ◌<◌, min, ltb, ◌≡◌, refl, List, Option, arith, length,
  for-Returns, Returns, Bool-cases, inl, inr,
}
use native.Mathlib.Decide.{dec_lt}
use buffalo.ShortestPath.Round.{at, relaxed, round-relaxed, relaxed-better, relaxed-worse}
use buffalo.ShortestPath.{Entry, floyd}

-- `Walk d n i j c h`: steps of the table `d` lead from `i` to `j`, at the total length `c`; the
-- first of them is the step `h`.
pub data Walk (d : ℕ → ℕ → Entry) (n : ℕ) : ℕ → ℕ → ℕ → Option ℕ → Type 0 where
  step :
      {i j c : ℕ} {h : Option ℕ}
      → i < n
      → j < n
      → c ≡ (d i j).length
      → h ≡ (d i j).next
      → Walk d n i j c h
  join :
      {i j c : ℕ} {h : Option ℕ} (k c' c'' : ℕ) (h' : Option ℕ)
      → k < n
      → Walk d n i k c' h
      → Walk d n k j c'' h'
      → c ≡ c' + c''
      → Walk d n i j c h

-- The entries after the first `m` rounds.
unfoldable pub after : (ℕ → ℕ → Entry) → ℕ → ℕ → ℕ → Entry
after d zero = d
after d (suc m) = relaxed (after d m) m

length-relaxed :
    (d : ℕ → ℕ → Entry) (k a b : ℕ)
    → (relaxed d k a b).length ≡ min (d a b).length ((d a k).length + (d k b).length)
unfolding relaxed
length-relaxed d k a b = ground arith

-- After `m` rounds no detour through a node below `m` is shorter.
pub after-triangle :
    (d : ℕ → ℕ → Entry) (m l a b : ℕ)
    → l < m
    → (after d m a b).length ≤ (after d m a l).length + (after d m l b).length
unfolding after
after-triangle d zero l a b h = absurd (omega arith)
after-triangle d (suc m) l a b h = elim (dec_lt l m) [
  | yes below ↦
      let e = after d m in
      omega (
        arith,
        length-relaxed e m a b,
        length-relaxed e m a l,
        length-relaxed e m l b,
        after-triangle d m l a b below,
        after-triangle d m l a m below,
        after-triangle d m l m b below,
      )
  | no above ↦
      let last : l ≡ m = omega arith in
      let e = after d m in
      rw last
        (omega (arith, length-relaxed e m a b, length-relaxed e m a m, length-relaxed e m m b))
]

pub after-le : (d : ℕ → ℕ → Entry) (m a b : ℕ) → (after d m a b).length ≤ (d a b).length
unfolding after
after-le d zero a b = omega arith
after-le d (suc m) a b = omega (arith, length-relaxed (after d m) m a b, after-le d m a b)

-- No walk is shorter than the entry after all rounds.
pub after-le-Walk :
    (d : ℕ → ℕ → Entry) (n : ℕ) {i j c : ℕ} {h : Option ℕ}
    → Walk d n i j c h
    → (after d n i j).length ≤ c
after-le-Walk d n {i} {j} (step hi hj e f) = omega (arith, after-le d n i j)
after-le-Walk d n {i} {j} (join k c' c'' h' hk left right e) =
    omega (arith, after-triangle d n k i j hk, after-le-Walk d n left, after-le-Walk d n right)

-- Each entry is a walk.
pub after-Walk :
    (d : ℕ → ℕ → Entry) (n m i j : ℕ)
    → m ≤ n
    → i < n
    → j < n
    → Walk d n i j (after d m i j).length (after d m i j).next
unfolding after
after-Walk d n zero i j le hi hj = step hi hj refl refl
after-Walk d n (suc m) i j le hi hj =
    let e = after d m in
    let old = after-Walk d n m i j (omega arith) hi hj in
    let left = after-Walk d n m i m (omega arith) hi (omega arith) in
    let right = after-Walk d n m m j (omega arith) (omega arith) hj in
    elim (Bool-cases (ltb ((e i m).length + (e m j).length) (e i j).length)) [
      | inl better ↦ rw (relaxed-better e m i j better) (join m _ _ _ (omega arith) left right refl)
      | inr worse ↦ rw (relaxed-worse e m i j worse) old
    ]

-- The main loop ends inside the table, if no sum of two lengths can be rounded.
pub floyd-after :
    (n : ℕ) (d : ℕ → ℕ → Entry) (t : List Entry)
    → length t ≡ n * n
    → ((a b : ℕ) → (d a b).length < 2 ^ 52)
    → ((a b : ℕ) → a < n → b < n → at t n a b ≡ d a b)
    → Returns
        (λ u. (length u ≡ n * n) × ((a b : ℕ) → a < n → b < n → at u n a b ≡ after d n a b))
        (floyd n t)
unfolding floyd after
floyd-after n d t width exact start =
    for-Returns
      (λ k u. (length u ≡ n * n) × ((a b : ℕ) → a < n → b < n → at u n a b ≡ after d k a b)) n _ n 0
      t (omega arith)
      (λ k u lo hk p.
        round-relaxed n (after d k) k hk (λ a b. omega (arith, exact a b, after-le d k a b)) u p.0
          p.1)
      (width, start)
