-- ===== src/Fib/Main/Indexed.antt =====
-- The numbers that `main` gives the next hops.
use buffalo.Common.Dict.{Dict, assign, value, value-assign, nat_key}
use buffalo.Common.OrdSet.{Above, Sorted, nat_order}
use buffalo.Common.{
  ℕ, ◌+◌, ◌≤◌, ◌<◌, ◌≡◌, ◌≢◌, refl, sym, ◌∙◌, List, [], ◌∷◌, arith, Elem, inl, inr,
}
use buffalo.Fib.Globals.{index_nexthops}

Above-Elem : (a b : ℕ) (nhs : List ℕ) → Above a nhs → Elem b nhs → a < b
Above-Elem a b [] above m = absurd m
Above-Elem a b (c ∷ nhs) above (inl e) = ground (arith, above.0, e)
Above-Elem a b (c ∷ nhs) above (inr m) = Above-Elem a b nhs above.1 m

-- A next hop that is not in the list keeps its number.
index_nexthops-other :
    (b : ℕ) (nhs : List ℕ) (i : ℕ) (m : Dict ℕ ℕ)
    → ((a : ℕ) → Elem a nhs → a ≢ b)
    → value (index_nexthops nhs i m) b ≡ value m b
unfolding index_nexthops
index_nexthops-other b [] i m away = refl
index_nexthops-other b (a ∷ nhs) i m away =
    let here = away a (inl refl) in
    index_nexthops-other b nhs (i + 1) (assign a i m) (λ c e. away c (inr e))
    ∙ (rw (value-assign a b i m) (ground (arith, here)))

index_nexthops-head :
    (a x : ℕ) (nhs : List ℕ) (i : ℕ) (m : Dict ℕ ℕ)
    → Above a nhs
    → x ≡ a
    → value (index_nexthops nhs (i + 1) (assign a i m)) x ≡ i
index_nexthops-head a x nhs i m above e =
    index_nexthops-other x nhs (i + 1) (assign a i m)
      (λ c e' q. absurd (omega (arith, Above-Elem a c nhs above e', q, e)))
    ∙ (rw (value-assign a x i m, e) (ground arith))

index_nexthops-ge :
    (b : ℕ) (nhs : List ℕ) (i : ℕ) (m : Dict ℕ ℕ)
    → Sorted nhs
    → Elem b nhs
    → i ≤ value (index_nexthops nhs i m) b
unfolding index_nexthops
index_nexthops-ge b [] i m sorted e = absurd e
index_nexthops-ge b (a ∷ nhs) i m sorted (inl e) =
    omega (arith, index_nexthops-head a b nhs i m sorted.0 e)
index_nexthops-ge b (a ∷ nhs) i m sorted (inr e) =
    omega (arith, index_nexthops-ge b nhs (i + 1) (assign a i m) sorted.1 e)

-- No two next hops have the same number.
pub index_nexthops-apart :
    (a b : ℕ) (nhs : List ℕ) (i : ℕ) (m : Dict ℕ ℕ)
    → Sorted nhs
    → Elem a nhs
    → Elem b nhs
    → value (index_nexthops nhs i m) a ≡ value (index_nexthops nhs i m) b
    → a ≡ b
unfolding index_nexthops
index_nexthops-apart a b [] i m sorted at_a at_b e = absurd at_a
index_nexthops-apart a b (c ∷ nhs) i m sorted (inl here) (inl there) e = here ∙ sym there
index_nexthops-apart a b (c ∷ nhs) i m sorted (inl here) (inr there) e = absurd (
    omega (
      arith,
      e,
      index_nexthops-head c a nhs i m sorted.0 here,
      index_nexthops-ge b nhs (i + 1) (assign c i m) sorted.1 there,
    ))
index_nexthops-apart a b (c ∷ nhs) i m sorted (inr here) (inl there) e = absurd (
    omega (
      arith,
      e,
      index_nexthops-head c b nhs i m sorted.0 there,
      index_nexthops-ge a nhs (i + 1) (assign c i m) sorted.1 here,
    ))
index_nexthops-apart a b (c ∷ nhs) i m sorted (inr here) (inr there) e =
    index_nexthops-apart a b nhs (i + 1) (assign c i m) sorted.1 here there e
