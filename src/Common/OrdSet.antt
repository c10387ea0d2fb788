-- ===== src/Common/OrdSet.antt =====
-- `std::set`: the elements in ascending order.
use mathlib.Core.Path.{◌≡◌, refl, sym, subst, ◌∙◌}
use mathlib.Core.Bool.{Bool, true, false, false≢true, not, ◌&&◌, ◌||◌}
use mathlib.Core.Logic.{◌≢◌, inl, inr, ◌⊎◌}
use mathlib.Core.List.{List, [], ◌∷◌}
use native.Mathlib.Omega.{arith}
use buffalo.Common.Tests.{if◌then◌else◌, ltb, Bool-cases}
use buffalo.Common.Lists.{Elem}
use Prim.Native.Nat.{ℕ}

-- The order that a set is built with.
pub record Order (K : Type 0) : Type 0 where
  pub lt : K → K → Bool
  pub lt_irrefl : (a : K) → lt a a ≡ false
  pub lt_trans : (a b c : K) → lt a b ≡ true → lt b c ≡ true → lt a c ≡ true
  pub lt_connected : (a b : K) → lt a b ≡ false → lt b a ≡ false → a ≡ b

pub ltb_irrefl : (a : ℕ) → ltb a a ≡ false
ltb_irrefl a = ground arith

pub ltb_trans : (a b c : ℕ) → ltb a b ≡ true → ltb b c ≡ true → ltb a c ≡ true
ltb_trans a b c h h' = ground arith

pub ltb_connected : (a b : ℕ) → ltb a b ≡ false → ltb b a ≡ false → a ≡ b
ltb_connected a b h h' = ground arith

instance abbrev pub nat_order : Order ℕ
nat_order = record {
  lt = ltb;
  lt_irrefl = ltb_irrefl;
  lt_trans = ltb_trans;
  lt_connected = ltb_connected;
}

pub or_true : (b : Bool) → b || true ≡ true
or_true true = refl
or_true false = refl

module _ {K : Type 0} ⦃o : Order K⦄ where
  -- `s.insert(a)`
  unfoldable pub insert : K → List K → List K
  insert a [] = a ∷ []
  insert a (b ∷ rest) =
      if o.lt a b then a ∷ b ∷ rest else if o.lt b a then b ∷ insert a rest else b ∷ rest

  -- Neither is before the other.
  abbrev pub equivalent : K → K → Bool
  equivalent a b = not (o.lt a b) && not (o.lt b a)

  -- `s.find(a) != s.end()`
  unfoldable pub member : K → List K → Bool
  member a [] = false
  member a (b ∷ rest) = equivalent a b || member a rest

  -- `s.erase(a)`
  unfoldable pub erase : K → List K → List K
  erase a [] = []
  erase a (b ∷ rest) = let left = erase a rest in if equivalent a b then left else b ∷ left

  -- All elements come after `a`.
  abbrev pub Above : K → List K → Type 0
  Above a [] = Unit
  Above a (b ∷ rest) = (o.lt a b ≡ true) × Above a rest

  abbrev pub Sorted : List K → Type 0
  Sorted [] = Unit
  Sorted (a ∷ rest) = Above a rest × Sorted rest

  Above-less : (a b : K) (s : List K) → o.lt a b ≡ true → Above b s → Above a s
  Above-less a b [] h above = tt
  Above-less a b (c ∷ s) h (first, rest) = (o.lt_trans a b c h first, Above-less a b s h rest)

  Above-insert : (a b : K) (s : List K) → o.lt a b ≡ true → Above a s → Above a (insert b s)
  unfolding insert
  Above-insert a b [] h above = (h, tt)
  Above-insert a b (c ∷ s) h (first, rest) = elim (Bool-cases (o.lt b c)) [
    | inl before ↦ rw before (h, (first, rest))
    | inr other ↦ elim (Bool-cases (o.lt c b)) [
      | inl after ↦ rw (other, after) (first, Above-insert a b s h rest)
      | inr same ↦ rw (other, same) (first, rest)
    ]
  ]

  pub insert-Sorted : (a : K) (s : List K) → Sorted s → Sorted (insert a s)
  unfolding insert
  insert-Sorted a [] sorted = (tt, tt)
  insert-Sorted a (b ∷ s) (above, sorted) = elim (Bool-cases (o.lt a b)) [
    | inl before ↦ rw before ((before, Above-less a b s before above), (above, sorted))
    | inr other ↦ elim (Bool-cases (o.lt b a)) [
      | inl after ↦ rw (other, after) (Above-insert b a s after above, insert-Sorted a s sorted)
      | inr same ↦ rw (other, same) (above, sorted)
    ]
  ]

  pub Elem-insert_self : (a : K) (s : List K) → Elem a (insert a s)
  unfolding insert
  Elem-insert_self a [] = inl refl
  Elem-insert_self a (b ∷ s) = elim (Bool-cases (o.lt a b)) [
    | inl before ↦ rw before (inl refl)
    | inr other ↦ elim (Bool-cases (o.lt b a)) [
      | inl after ↦ rw (other, after) (inr (Elem-insert_self a s))
      | inr same ↦ rw (other, same) (inl (o.lt_connected a b other same))
    ]
  ]

  pub Elem-insert : (a b : K) (s : List K) → Elem a s → Elem a (insert b s)
  unfolding insert
  Elem-insert a b [] m = absurd m
  Elem-insert a b (c ∷ s) m = elim (Bool-cases (o.lt b c)) [
    | inl before ↦ rw before (inr m)
    | inr other ↦ elim (Bool-cases (o.lt c b)) [
      | inl after ↦
          rw (other, after) (elim m [ inl e ↦ inl e | inr m' ↦ inr (Elem-insert a b s m') ])
      | inr same ↦ rw (other, same) m
    ]
  ]

  -- What `insert` leaves was there before, or is the new element.
  pub Elem-insert_inv : (a b : K) (s : List K) → Elem a (insert b s) → (a ≡ b) ⊎ Elem a s
  unfolding insert
  Elem-insert_inv a b [] = λ m. m
  Elem-insert_inv a b (c ∷ s) = elim (Bool-cases (o.lt b c)) [
    | inl before ↦ rw before (λ m. m)
    | inr other ↦ elim (Bool-cases (o.lt c b)) [
      | inl after ↦
          rw (other, after)
            (λ m. elim m [
              | inl e ↦ inr (inl e)
              | inr m' ↦ elim (Elem-insert_inv a b s m') [ inl e ↦ inl e | inr m'' ↦ inr (inr m'') ]
            ])
      | inr same ↦ rw (other, same) (λ m. inr m)
    ]
  ]

  pub member-Elem : (a : K) (s : List K) → member a s ≡ true → Elem a s
  unfolding member
  member-Elem a [] h = cc
  member-Elem a (b ∷ s) h = elim (Bool-cases (o.lt a b)) [
    | inl before ↦ inr (member-Elem a s (rw before at h))
    | inr other ↦ elim (Bool-cases (o.lt b a)) [
      | inl after ↦ inr (member-Elem a s (rw (other, after) at h))
      | inr same ↦ inl (o.lt_connected a b other same)
    ]
  ]

  pub Elem-member : (a : K) (s : List K) → Elem a s → member a s ≡ true
  unfolding member
  Elem-member a [] m = absurd m
  Elem-member a (b ∷ s) m = elim m [
    | inl e ↦ let apart = o.lt_irrefl b in rw (e, apart) refl
    | inr m' ↦ let rest = Elem-member a s m' in rw rest (or_true (equivalent a b))
  ]

  pub Elem-erase : (a b : K) (s : List K) → Elem a s → (a ≡ b) ⊎ Elem a (erase b s)
  unfolding erase
  Elem-erase a b [] m = absurd m
  Elem-erase a b (c ∷ s) m = elim (Bool-cases (o.lt b c)) [
    | inl before ↦ rw before (elim m [
      | inl e ↦ inr (inl e)
      | inr m' ↦ elim (Elem-erase a b s m') [ inl e ↦ inl e | inr left ↦ inr (inr left) ]
    ])
    | inr other ↦ elim (Bool-cases (o.lt c b)) [
      | inl after ↦
          rw (other, after)
            (elim m [
              | inl e ↦ inr (inl e)
              | inr m' ↦ elim (Elem-erase a b s m') [ inl e ↦ inl e | inr left ↦ inr (inr left) ]
            ])
      | inr same ↦
          rw (other, same)
            (elim m [
              | inl e ↦ inl (e ∙ sym (o.lt_connected b c other same))
              | inr m' ↦ Elem-erase a b s m'
            ])
    ]
  ]

  pub Elem-erase_inv : (a b : K) (s : List K) → Elem a (erase b s) → Elem a s
  unfolding erase
  Elem-erase_inv a b [] = λ m. m
  Elem-erase_inv a b (c ∷ s) = elim (Bool-cases (equivalent b c)) [
    | inl same ↦ rw same (λ m. inr (Elem-erase_inv a b s m))
    | inr apart ↦ rw apart (λ m. elim m [ inl e ↦ inl e | inr m' ↦ inr (Elem-erase_inv a b s m') ])
  ]

  pub Elem-erase_self : (a : K) (s : List K) → ¬ Elem a (erase a s)
  unfolding erase
  Elem-erase_self a [] = λ m. m
  Elem-erase_self a (c ∷ s) =
      let rest = Elem-erase_self a s in
      elim (Bool-cases (equivalent a c)) [
        | inl same ↦ rw same rest
        | inr apart ↦ rw apart (λ m. elim m [
          | inl e ↦
              let irrefl = o.lt_irrefl c in
              let same : equivalent a c ≡ true = rw (e, irrefl) refl in
              false≢true (sym apart ∙ same)
          | inr m' ↦ rest m'
        ])
      ]

  Above-erase : (a b : K) (s : List K) → Above a s → Above a (erase b s)
  unfolding erase
  Above-erase a b [] above = tt
  Above-erase a b (c ∷ s) (first, rest) = elim (Bool-cases (equivalent b c)) [
    | inl same ↦ rw same (Above-erase a b s rest)
    | inr apart ↦ rw apart (first, Above-erase a b s rest)
  ]

  pub erase-Sorted : (a : K) (s : List K) → Sorted s → Sorted (erase a s)
  unfolding erase
  erase-Sorted a [] sorted = tt
  erase-Sorted a (c ∷ s) (above, sorted) = elim (Bool-cases (equivalent a c)) [
    | inl same ↦ rw same (erase-Sorted a s sorted)
    | inr apart ↦ rw apart (Above-erase c a s above, erase-Sorted a s sorted)
  ]

  -- The first of a sorted list does not come again.
  pub Above-ne : (a b : K) (s : List K) → Above a s → Elem b s → a ≢ b
  Above-ne a b [] above m same = m
  Above-ne a b (c ∷ s) (first, rest) (inl e) same =
      false≢true (sym (o.lt_irrefl c) ∙ subst (λ x. o.lt x c ≡ true) (same ∙ e) first)
  Above-ne a b (c ∷ s) (first, rest) (inr m) same = Above-ne a b s rest m same
