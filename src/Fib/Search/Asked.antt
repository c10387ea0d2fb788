-- ===== src/Fib/Search/Asked.antt =====
-- The lookup over answers of the filters, as a pass over the next hops.
use buffalo.Bloom
use buffalo.Bloom.{BloomFilter}
use buffalo.Common.{
  ℕ, zero, suc, ◌^◌, ◌≤◌, ◌<◌, if◌then◌else◌, ◌≡◌, refl, List, [], ◌∷◌, some, arith, Bool,
  Bool-cases, inl, inr, Elem, get_elem?, each, ◌>>=◌,
}
use buffalo.Fib.Blocks.{block, run, run_next, masked}
use buffalo.Fib.Build.{pfx_index}
use buffalo.Fib.Globals.{Globals}
use buffalo.Fib.Search.{Found, longest_hit, note_hit, ask_filters}
use buffalo.Prefix.{Prefix}
use buffalo.Rand.{Rand}

-- Whether the filter of a next hop answers 1 for a prefix.
abbrev pub Answers : Type 0
Answers = ℕ → Prefix → Bool

-- The longest length up to `j` at which the next hop's filter answers 1, or 0.
unfoldable pub top : Answers → ℕ → ℕ → ℕ → ℕ
top hit addr nh zero = 0
top hit addr nh (suc j) = if hit nh (block addr (suc j)) then suc j else top hit addr nh j

-- The next hops in turn.
unfoldable pub asked : Answers → ℕ → List ℕ → Found → Found
asked hit addr [] s = s
asked hit addr (nh ∷ nhs) s = asked hit addr nhs (note_hit nh (top hit addr nh 32) s)

module _ (R : Rand) (g : Globals) (filters : List BloomFilter) (hit : Answers) where
  -- The filter of a next hop and a length answers for the address, as `hit` says.
  abbrev pub AnswersAt : ℕ → ℕ → ℕ → Type 0
  AnswersAt addr nh j =
      (f : BloomFilter) × (get_elem? filters (pfx_index g j nh) ≡ some f)
      × (Bloom.contains_prefix R (block addr j) f ≡ some (if hit nh (block addr j) then 1 else 0))

  -- The filters of all the next hops answer, at every length.
  abbrev pub Answering : ℕ → Type 0
  Answering addr = (nh j : ℕ) → Elem nh g.nhlist → 0 < j → j ≤ 32 → AnswersAt addr nh j

  module _ (addr : ℕ) (small : addr < 2 ^ 32) where
    longest_hit-top :
        (nh j : ℕ)
        → j ≤ 32
        → ((i : ℕ) → 0 < i → i ≤ 32 → AnswersAt addr nh i)
        → longest_hit R g filters nh addr j (run j) ≡ some (top hit addr nh j)
    unfolding longest_hit top
    longest_hit-top nh zero short answers = refl
    longest_hit-top nh (suc j) short answers =
        let (f, here, answer) = answers (suc j) (omega arith) short in
        let rest = longest_hit-top nh j (omega arith) answers in
        elim (Bool-cases (hit nh (block addr (suc j)))) [
          | inl hits ↦ rw (here, ◌>>=◌, masked addr j small (omega arith), answer, hits) refl
          | inr misses ↦
              rw
                (
                  here,
                  ◌>>=◌,
                  masked addr j small (omega arith),
                  answer,
                  misses,
                  run_next j (omega arith),
                )
                rest
        ]

    each-asked :
        (nhs : List ℕ) (s : Found)
        → ((nh j : ℕ) → Elem nh nhs → 0 < j → j ≤ 32 → AnswersAt addr nh j)
        → each nhs
            (λ nh t. do j ← longest_hit R g filters nh addr 32 (run 32); some (note_hit nh j t))
            s
          ≡ some (asked hit addr nhs s)
    unfolding each asked
    each-asked [] s answers = refl
    each-asked (nh ∷ nhs) s answers =
        rw (longest_hit-top nh 32 (omega arith) (λ j. answers nh j (inl refl)), ◌>>=◌)
          (each-asked nhs (note_hit nh (top hit addr nh 32) s) (λ n j m. answers n j (inr m)))

    -- The lookup ends, and its result is the pass over the answers.
    pub ask_filters-asked :
        Answering addr
        → ask_filters R g filters addr
          ≡ some (asked hit addr g.nhlist (record { error = 0; nh = 0; hitj = 0 }))
    unfolding ask_filters run
    ask_filters-asked answers = each-asked g.nhlist (record { error = 0; nh = 0; hitj = 0 }) answers
