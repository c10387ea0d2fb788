-- ===== src/ShortestPath/Round.antt =====
-- One round of the main loop: in place, and yet as if every entry were read before the round.
use buffalo.Common.{
  ℕ, zero, suc, ◌+◌, ◌*◌, ◌^◌, ◌<◌, ◌==◌, ltb, lt→ltb, if◌then◌else◌, ◌≡◌, refl, ◌∙◌, ◌&&◌, ◌||◌,
  List, [], ◌∷◌, none, some, arith, get_elem?, get_or, set, length, length-set, ◌>>=◌, for-Returns,
  Returns, Bool-cases, inl, inr, Bool, true, false,
}
use buffalo.ShortestPath.{Entry, store, relax, round}

abbrev blank : Entry
blank = record { length = 0; next = none }

-- The entry of row `i` and column `j`.
abbrev pub at : List Entry → ℕ → ℕ → ℕ → Entry
at t n i j = get_or t (i * n + j) blank

pub index-lt : (n i j : ℕ) → i < n → j < n → i * n + j < n * n
index-lt n i j hi hj = grind arith

row_unique : (n i j a b : ℕ) → j < n → b < n → a * n + b ≡ i * n + j → a ≡ i
row_unique n i j a b hj hb e = grind arith

pub index_eq : (n i j a b : ℕ) → j < n → b < n → (a * n + b == i * n + j) ≡ (a == i && b == j)
index_eq n i j a b hj hb = ground (arith, row_unique n i j a b)

get_elem?-get_or : (t : List Entry) (i : ℕ) → i < length t → get_elem? t i ≡ some (get_or t i blank)
get_elem?-get_or [] i h = elim h [ ]
get_elem?-get_or (x ∷ t) zero h = refl
get_elem?-get_or (x ∷ t) (suc i) h = get_elem?-get_or t i (omega arith)

get_or-set :
    (t : List Entry) (i j : ℕ) (v : Entry)
    → i < length t
    → get_or (set t i v) j blank ≡ (if j == i then v else get_or t j blank)
get_or-set [] i j v h = elim h [ ]
get_or-set (x ∷ t) zero zero v h = refl
get_or-set (x ∷ t) zero (suc j) v h = ground arith
get_or-set (x ∷ t) (suc i) zero v h = ground arith
get_or-set (x ∷ t) (suc i) (suc j) v h = ground (arith, get_or-set t i j v)

pub read-at :
    (t : List Entry) (n i j : ℕ)
    → length t ≡ n * n
    → i < n
    → j < n
    → get_elem? t (i * n + j) ≡ some (at t n i j)
read-at t n i j width hi hj = get_elem?-get_or t _ (rw width (index-lt n i j hi hj))

-- A store inside the table succeeds, and changes one entry.
pub store-at :
    (t : List Entry) (n i j : ℕ) (e : Entry)
    → length t ≡ n * n
    → i < n
    → j < n
    → Returns
        (λ u.
          (length u ≡ n * n)
          × ((a b : ℕ) → b < n → at u n a b ≡ (if a == i && b == j then e else at t n a b)))
        (store t (i * n + j) e)
unfolding store
store-at t n i j e width hi hj =
    let inside : i * n + j < length t = rw width (index-lt n i j hi hj) in
    (
      set t (i * n + j) e,
      rw (lt→ltb _ _ inside),
      (
        length-set t _ e ∙ width,
        λ a b hb. rw (get_or-set t (i * n + j) (a * n + b) e inside, index_eq n i j a b hj hb),
      ),
    )

-- The entry after round `k`, from the table before it.
unfoldable pub relaxed : (ℕ → ℕ → Entry) → ℕ → ℕ → ℕ → Entry
relaxed d k a b =
    if ltb ((d a k).length + (d k b).length) (d a b).length
    then record { length = (d a k).length + (d k b).length; next = (d a k).next }
    else d a b

-- Row `k` and column `k` do not change.
relaxed-column : (d : ℕ → ℕ → Entry) (k a : ℕ) → relaxed d k a k ≡ d a k
unfolding relaxed
relaxed-column d k a = ground arith

relaxed-row : (d : ℕ → ℕ → Entry) (k b : ℕ) → relaxed d k k b ≡ d k b
unfolding relaxed
relaxed-row d k b = ground arith

pub relaxed-better :
    (d : ℕ → ℕ → Entry) (k a b : ℕ)
    → ltb ((d a k).length + (d k b).length) (d a b).length ≡ true
    → relaxed d k a b ≡ record { length = (d a k).length + (d k b).length; next = (d a k).next }
unfolding relaxed
relaxed-better d k a b h = rw h

pub relaxed-worse :
    (d : ℕ → ℕ → Entry) (k a b : ℕ)
    → ltb ((d a k).length + (d k b).length) (d a b).length ≡ false
    → relaxed d k a b ≡ d a b
unfolding relaxed
relaxed-worse d k a b h = rw h

module _ (n : ℕ) (d : ℕ → ℕ → Entry) (k : ℕ) (hk : k < n)
    (exact : (a b : ℕ) → (d a b).length < 2 ^ 52) where
  -- The rows above `i` are done, and row `i` up to column `j`.
  record Progress (i j : ℕ) (t : List Entry) : Type 0 where
    width : length t ≡ n * n
    cells :
        (a b : ℕ)
        → a < n
        → b < n
        → at t n a b ≡ (if ltb a i || (a == i && ltb b j) then relaxed d k a b else d a b)

  relax-Progress :
      (i j : ℕ) (t : List Entry)
      → i < n
      → j < n
      → Progress i j t
      → Returns (Progress i (suc j)) (relax n k i j t)
  unfolding relax
  relax-Progress i j t hi hj p =
      let ik : at t n i k ≡ d i k = ground (arith, p.cells i k, relaxed-column d k i) in
      let kj : at t n k j ≡ d k j = ground (arith, p.cells k j, relaxed-row d k j) in
      let ij : at t n i j ≡ d i j = ground (arith, p.cells i j) in
      let sum_exact : ltb ((d i k).length + (d k j).length) (2 ^ 53) ≡ true =
        lt→ltb _ _ (omega (arith, exact i k, exact k j)) in
      let better : Bool = ltb ((d i k).length + (d k j).length) (d i j).length in
      rw
        (
          read-at t n i k p.width hi hk,
          read-at t n k j p.width hk hj,
          read-at t n i j p.width hi hj,
          ◌>>=◌,
          ik,
          kj,
          ij,
          sum_exact,
        )
        (elim (Bool-cases better) [
          | inl yes_better ↦
              let (u, run, (width, cells)) =
                store-at t n i j
                  (record { length = (d i k).length + (d k j).length; next = (d i k).next }) p.width
                  hi hj in
              (
                u,
                rw yes_better run,
                record {
                  width = width;
                  cells = λ a b ha hb.
                      ground (arith, cells a b hb, p.cells a b, relaxed-better d k i j yes_better);
                },
              )
          | inr not_better ↦ (
            t,
            rw not_better,
            record {
              width = p.width;
              cells = λ a b ha hb. ground (arith, p.cells a b, relaxed-worse d k i j not_better);
            },
          )
        ])

  row-Progress : (i : ℕ) (t : List Entry) → Progress i n t → Progress (suc i) 0 t
  row-Progress i t p = record { width = p.width; cells = λ a b ha hb. ground (arith, p.cells a b) }

  -- The round ends inside the table, with every entry relaxed from the table before it.
  pub round-relaxed :
      (t : List Entry)
      → length t ≡ n * n
      → ((a b : ℕ) → a < n → b < n → at t n a b ≡ d a b)
      → Returns
          (λ u. (length u ≡ n * n) × ((a b : ℕ) → a < n → b < n → at u n a b ≡ relaxed d k a b))
          (round n k t)
  unfolding round
  round-relaxed t width start =
      let (u, run, p) =
        for-Returns (λ i. Progress i 0) n _ n 0 t (omega arith)
          (λ i v lo hi q.
            let (w, run, r) =
              for-Returns (Progress i) n _ n 0 v (omega arith)
                (λ j x lo' hj. relax-Progress i j x hi hj) q in
            (w, run, row-Progress i w r))
          (record { width = width; cells = λ a b ha hb. ground (arith, start a b) }) in
      (u, run, (p.width, λ a b ha hb. ground (arith, p.cells a b)))
