-- ===== src/Fib/Search/Hits.antt =====
-- The hits that the loop over the next hops notes, and what it keeps of them.
use native.Mathlib.Decide.{ℕ_discrete}
use buffalo.Common.{
  ℕ, zero, suc, ◌+◌, ◌≤◌, ◌<◌, ◌≡◌, ◌≢◌, refl, sym, ◌∙◌, ap, List, [], ◌∷◌, arith, true, Bool-cases,
  inl, inr, ◌⊎◌, Elem, length,
}
use buffalo.Fib.Blocks.{block}
use buffalo.Fib.Search.Asked.{Answers, top, asked}
use buffalo.Fib.Search.{Found, note_hit}

-- What one round changes.
note_hit-error : (nh j : ℕ) (s : Found) → 0 < j → (note_hit nh j s).error ≡ s.error + 1
unfolding note_hit
note_hit-error nh zero s h = absurd (omega arith)
note_hit-error nh (suc j) s h = ground arith

note_hit-le : (nh j : ℕ) (s : Found) → s.error ≤ (note_hit nh j s).error
unfolding note_hit
note_hit-le nh zero s = omega arith
note_hit-le nh (suc j) s = ground arith

note_hit-bound : (nh j : ℕ) (s : Found) → (note_hit nh j s).error ≤ s.error + 1
unfolding note_hit
note_hit-bound nh zero s = omega arith
note_hit-bound nh (suc j) s = ground arith

note_hit-first : (nh j : ℕ) (s : Found) → 0 < j → s.nh ≡ 0 → (note_hit nh j s).nh ≡ nh
unfolding note_hit
note_hit-first nh zero s h e = absurd (omega arith)
note_hit-first nh (suc j) s h e = ground arith

-- A longer hit is taken, and a hit that is not longer is not.
note_hit-longer :
    (nh j : ℕ) (s : Found) → s.hitj < j → ((note_hit nh j s).nh ≡ nh) × ((note_hit nh j s).hitj ≡ j)
unfolding note_hit
note_hit-longer nh zero s h = absurd (omega arith)
note_hit-longer nh (suc j) s h = (ground arith, ground arith)

note_hit-shorter :
    (nh j : ℕ) (s : Found)
    → s.nh ≢ 0
    → j ≤ s.hitj
    → ((note_hit nh j s).nh ≡ s.nh) × ((note_hit nh j s).hitj ≡ s.hitj)
unfolding note_hit
note_hit-shorter nh zero s nonzero le = (refl, refl)
note_hit-shorter nh (suc j) s nonzero le = (ground arith, ground arith)

note_hit-zero : (nh j : ℕ) (s : Found) → j ≡ 0 → note_hit nh j s ≡ s
unfolding note_hit
note_hit-zero nh zero s e = refl
note_hit-zero nh (suc j) s e = absurd (omega arith)

-- No round shortens the hit that is kept below the longest hit so far.
note_hit-below : (nh j l : ℕ) (s : Found) → s.hitj < l → j < l → (note_hit nh j s).hitj < l
unfolding note_hit
note_hit-below nh zero l s h h' = h
note_hit-below nh (suc j) l s h h' = ground arith

module _ (hit : Answers) (addr : ℕ) where
  pub top-le : (nh j : ℕ) → top hit addr nh j ≤ j
  unfolding top
  top-le nh zero = omega arith
  top-le nh (suc j) = ground (arith, top-le nh j)

  pub top-ge : (nh i j : ℕ) → 0 < i → i ≤ j → hit nh (block addr i) ≡ true → i ≤ top hit addr nh j
  unfolding top
  top-ge nh i zero pos le h = absurd (omega arith)
  top-ge nh i (suc j) pos le h = elim (ℕ_discrete i (suc j)) [
    | yes last ↦ rw (← last, h) (omega arith)
    | no below ↦ ground (arith, top-ge nh i j pos (omega arith) h)
  ]

  -- A hit is a hit of the filter at that length.
  pub top-hit : (nh j : ℕ) → 0 < top hit addr nh j → hit nh (block addr (top hit addr nh j)) ≡ true
  unfolding top
  top-hit nh zero h = absurd (omega arith)
  top-hit nh (suc j) h = elim (Bool-cases (hit nh (block addr (suc j)))) [
    | inl hits ↦ rw hits hits
    | inr misses ↦ rw misses (top-hit nh j (rw misses at h))
  ]

  abbrev tops : ℕ → ℕ
  tops nh = top hit addr nh 32

  asked-le : (nhs : List ℕ) (s : Found) → s.error ≤ (asked hit addr nhs s).error
  unfolding asked
  asked-le [] s = omega arith
  asked-le (nh ∷ nhs) s =
      omega (arith, note_hit-le nh (tops nh) s, asked-le nhs (note_hit nh (tops nh) s))

  pub asked-bound : (nhs : List ℕ) (s : Found) → (asked hit addr nhs s).error ≤ s.error + length nhs
  unfolding asked
  asked-bound [] s = omega arith
  asked-bound (nh ∷ nhs) s =
      omega (arith, note_hit-bound nh (tops nh) s, asked-bound nhs (note_hit nh (tops nh) s))

  pub asked-lt :
      (v : ℕ) (nhs : List ℕ) (s : Found)
      → Elem v nhs
      → 0 < tops v
      → s.error < (asked hit addr nhs s).error
  unfolding asked
  asked-lt v [] s m h = absurd m
  asked-lt v (nh ∷ nhs) s (inl e) h =
      omega
        (arith, note_hit-error nh (tops nh) s (rw (← e) h), asked-le nhs (note_hit nh (tops nh) s))
  asked-lt v (nh ∷ nhs) s (inr m) h =
      omega (arith, note_hit-le nh (tops nh) s, asked-lt v nhs (note_hit nh (tops nh) s) m h)

  asked-skip :
      (nh : ℕ) (nhs : List ℕ) (s : Found)
      → tops nh ≡ 0
      → asked hit addr (nh ∷ nhs) s ≡ asked hit addr nhs s
  unfolding asked
  asked-skip nh nhs s e = ap (asked hit addr nhs) (note_hit-zero nh (tops nh) s e)

  -- Without another hit nothing changes.
  asked-same :
      (nhs : List ℕ) (s : Found) → (asked hit addr nhs s).error ≤ s.error → asked hit addr nhs s ≡ s
  unfolding asked
  asked-same [] s le = refl
  asked-same (nh ∷ nhs) s le = elim (ℕ_discrete (tops nh) 0) [
    | yes none_here ↦
        let same = asked-skip nh nhs s none_here in
        same ∙ asked-same nhs s (omega (arith, ap (λ (f : Found). f.error) same))
    | no here ↦ absurd (
        omega (
          arith,
          note_hit-error nh (tops nh) s (omega arith),
          asked-le nhs (note_hit nh (tops nh) s),
        ))
  ]

  -- A single hit is the next hop that is known to hit.
  pub asked-single :
      (v : ℕ) (nhs : List ℕ) (s : Found)
      → Elem v nhs
      → 0 < tops v
      → s.nh ≡ 0
      → (asked hit addr nhs s).error ≤ s.error + 1
      → (asked hit addr nhs s).nh ≡ v
  unfolding asked
  asked-single v [] s m h fresh le = absurd m
  asked-single v (nh ∷ nhs) s m h fresh le = elim (ℕ_discrete (tops nh) 0) [
    | yes none_here ↦
        let same = asked-skip nh nhs s none_here in
        let later : Elem v nhs = elim m [
          | inl e ↦ absurd (omega (arith, ap tops e))
          | inr m' ↦ m'
        ] in
        ap (λ (f : Found). f.nh) same
        ∙ asked-single v nhs s later h fresh (omega (arith, ap (λ (f : Found). f.error) same))
    | no here ↦
        let t = note_hit nh (tops nh) s in
        let one = note_hit-error nh (tops nh) s (omega arith) in
        elim m [
          | inl e ↦
              ap (λ (f : Found). f.nh) (asked-same nhs t (omega (arith, one)))
              ∙ note_hit-first nh (tops nh) s (omega arith) fresh
              ∙ sym e
          | inr m' ↦ absurd (omega (arith, one, asked-lt v nhs t m' h))
        ]
  ]

  -- With the longest hit kept, the rest of the next hops change nothing.
  asked-kept :
      (v j : ℕ) (nhs : List ℕ) (s : Found)
      → s.nh ≡ v
      → s.hitj ≡ j
      → v ≢ 0
      → ((nh : ℕ) → Elem nh nhs → tops nh ≤ j)
      → (asked hit addr nhs s).nh ≡ v
  unfolding asked
  asked-kept v j [] s e e' nonzero all = e
  asked-kept v j (nh ∷ nhs) s e e' nonzero all =
      let (a, b) =
        note_hit-shorter nh (tops nh) s (λ z. nonzero (sym e ∙ z))
          (omega (arith, all nh (inl refl))) in
      asked-kept v j nhs (note_hit nh (tops nh) s) (a ∙ e) (b ∙ e') nonzero (λ n m. all n (inr m))

  -- The one next hop with the longest hit is found.
  pub asked-longest :
      (v : ℕ) (nhs : List ℕ) (s : Found)
      → Elem v nhs
      → v ≢ 0
      → s.hitj < tops v
      → ((nh : ℕ) → Elem nh nhs → (nh ≡ v) ⊎ (tops nh < tops v))
      → (asked hit addr nhs s).nh ≡ v
  unfolding asked
  asked-longest v [] s m nonzero below all = absurd m
  asked-longest v (nh ∷ nhs) s m nonzero below all = elim (ℕ_discrete nh v) [
    | yes here ↦
        let (a, b) = note_hit-longer nh (tops nh) s (rw here below) in
        asked-kept v (tops v) nhs (note_hit nh (tops nh) s) (a ∙ here) (b ∙ ap tops here) nonzero
          (λ n member. elim (all n (inr member)) [
            | inl e ↦ rw e (omega arith)
            | inr lt ↦ omega arith
          ])
    | no other ↦
        let shorter : tops nh < tops v = elim (all nh (inl refl)) [
          | inl e ↦ absurd (other e)
          | inr lt ↦ lt
        ] in
        let later : Elem v nhs = elim m [ inl e ↦ absurd (other (sym e)) | inr m' ↦ m' ] in
        asked-longest v nhs (note_hit nh (tops nh) s) later nonzero
          (note_hit-below nh (tops nh) (tops v) s below shorter) (λ n member. all n (inr member))
  ]
