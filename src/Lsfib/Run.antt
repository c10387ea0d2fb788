-- ===== src/Lsfib/Run.antt =====
-- lsfib.cc: `calc_latency` where no false positive is likely enough to be followed: the packet takes
-- the shortest path, and the sets of next hops are put back.
use native.Mathlib.Decide.{ℕ_discrete}
use buffalo.Common.Dict.{lookup, assign, nat_key}
use buffalo.Common.{
  ℕ, zero, suc, ◌+◌, ◌^◌, ◌≤◌, ◌<◌, ◌==◌, true, false, ◌≡◌, ◌≢◌, refl, sym, ap, ◌∙◌, subst, List,
  [], ◌∷◌, Option, some, arith, get_elem?, length, Returns, ◌>>=◌,
}
use buffalo.Lsfib.Latency.{likely, positives, draw_hops, latency_body, calc_latency}
use buffalo.Lsfib.{Double, Net, Graph, Tally, Latency, hops}
use buffalo.ShortestPath.Hops.{NextHops}
use buffalo.ShortestPath.Round.{at, read-at}

-- What the proofs rely on of IEEE 754: 1 is neutral, 0 is neutral, and integers below 2^53 are exact.
pub record IsDouble (W : Type 0) ⦃D : Double W⦄ : Type 0 where
  pub one_times : (x : W) → D.times D.one x ≡ x
  pub times_one : (x : W) → D.times x D.one ≡ x
  pub nought_plus : (x : W) → D.plus D.nought x ≡ x
  pub plus-of_int : (a b : ℕ) → a + b < 2 ^ 53 → D.plus (D.of_int a) (D.of_int b) ≡ D.of_int (a + b)
  pub minus_self : (a : ℕ) → D.minus (D.of_int a) (D.of_int a) ≡ D.nought
  pub nought_over : (a : ℕ) → 0 < a → D.over D.nought (D.of_int a) ≡ D.nought
  pub less_irrefl : (x : W) → D.less x x ≡ false
  pub one_likely : D.less D.one D.threshold ≡ false

-- The length of the path that the table has from `i` to `j`.
abbrev pub distance : {W : Type 0} → Graph W → ℕ → ℕ → ℕ
distance g i j = (at g.sp g.n i j).length

-- The table leads on, and every node has its list of neighbours.
pub record Forward {W : Type 0} (g : Graph W) : Type 0 where
  pub table : NextHops g.sp g.n
  pub all_nodes : g.n ≤ length g.neighbors

hops-assign_self : (src : ℕ) (s : List ℕ) (net : Net) → hops (assign src s net) src ≡ s
unfolding hops lookup
hops-assign_self src s net = let e : (src == src) ≡ true = ground arith in rw e refl

hops-assign_ne :
    (src x : ℕ) (s : List ℕ) (net : Net) → src ≢ x → hops (assign src s net) x ≡ hops net x
unfolding hops lookup
hops-assign_ne src x s net apart = let e : (src == x) ≡ false = ground (arith, apart) in rw e refl

-- The sets after a node is put back.
hops-put_back :
    (src : ℕ) (s : List ℕ) (net after : Net)
    → hops net src ≡ []
    → ((x : ℕ) → hops after x ≡ hops (assign src s net) x)
    → (x : ℕ) → hops (assign src [] after) x ≡ hops net x
hops-put_back src s net after empty same x = elim (ℕ_discrete src x) [
  | yes e ↦
      subst (λ y. hops (assign src [] after) y ≡ hops net y) e
        (hops-assign_self src [] after ∙ sym empty)
  | no apart ↦ hops-assign_ne src x [] after apart ∙ same x ∙ hops-assign_ne src x s net apart
]

pub get_elem?-inside :
    {A : Type 0} (xs : List A) (i : ℕ) → i < length xs → (x : A) × (get_elem? xs i ≡ some x)
get_elem?-inside [] i h = elim h [ ]
get_elem?-inside (x ∷ xs) zero h = (x, refl)
get_elem?-inside (x ∷ xs) (suc i) h = get_elem?-inside xs i (omega arith)

module _ {W : Type 0} ⦃D : Double W⦄ (laws : IsDouble W) (g : Graph W) where
  -- The loop over the false positives is not entered.
  positives-quiet :
      (latency : Latency W) (rounds fuel src dst next : ℕ) (neighbors : List ℕ) (prev : Option ℕ)
      (t : Tally W)
      → D.less D.threshold g.falsepos ≡ false
      → positives g latency rounds fuel neighbors src dst prev D.one next D.one 0 t ≡ some t
  unfolding positives likely
  positives-quiet latency zero fuel src dst next neighbors prev t quiet = refl
  positives-quiet latency (suc rounds) fuel src dst next neighbors prev t quiet =
      rw (positives, likely, laws.one_times g.falsepos, laws.times_one g.falsepos, quiet) refl

  -- A hop to the next node and what is left from there.
  draw_hops-Returns :
      (latency : Latency W) (fuel src dst k a b : ℕ) (prev : Option ℕ) (net : Net)
      → D.less D.threshold g.falsepos ≡ false
      → Forward g
      → src < g.n
      → k < g.n
      → hops net src ≡ []
      → distance g src k ≡ a
      → a + b < 2 ^ 53
      → Returns
          (λ r. (r.0 ≡ D.of_int b) × ((x : ℕ) → hops r.1 x ≡ hops (assign src (k ∷ []) net) x))
          (latency k dst (some src) D.one (assign src (k ∷ []) net))
      → Returns
          (λ r. (r.0 ≡ D.of_int (a + b)) × ((x : ℕ) → hops r.1 x ≡ hops net x))
          (draw_hops g latency fuel src dst prev D.one k net)
  unfolding draw_hops
  draw_hops-Returns latency fuel src dst k a b prev net quiet forward hs hk empty step room rest =
      let (neighbors, get) =
        get_elem?-inside g.neighbors src (omega (arith, forward.all_nodes, hs)) in
      let (r, run, (value, same)) = rest in
      let start : Tally W = record { total = D.nought; sum = D.one; net = net } in
      (
        (D.of_int (a + b), assign src [] r.1),
        rw
            (
              get,
              ◌>>=◌,
              positives-quiet latency (length neighbors) fuel src dst k neighbors prev start quiet,
              read-at g.sp g.n src k forward.table.width hs hk,
              laws.one_times D.one,
              run,
              empty,
              laws.times_one (D.of_int (distance g src k)),
              laws.times_one (D.of_int (distance g src k)),
              step,
              value,
              laws.nought_plus (D.plus (D.of_int a) (D.of_int b)),
              laws.plus-of_int a b room,
            )
            refl,
        (refl, hops-put_back src (k ∷ []) net r.1 empty same),
      )

  -- By recursion on the fuel, which the remaining distance is below.
  pub calc_latency-Forward :
      (fuel src dst : ℕ) (h : ℕ) (prev : Option ℕ) (net : Net)
      → D.less D.threshold g.falsepos ≡ false
      → Forward g
      → src < g.n
      → dst < g.n
      → src ≢ dst
      → (at g.sp g.n src dst).next ≡ some h
      → distance g src dst < fuel
      → distance g src dst < 2 ^ 53
      → ((x : ℕ) → x < g.n → distance g x dst ≤ distance g src dst → hops net x ≡ [])
      → Returns
          (λ r. (r.0 ≡ D.of_int (distance g src dst)) × ((x : ℕ) → hops r.1 x ≡ hops net x))
          (calc_latency g fuel src dst prev D.one net)
  unfolding calc_latency latency_body
  calc_latency-Forward zero src dst h prev net quiet forward hs hd apart next less room empty =
      absurd (omega (arith, less))
  calc_latency-Forward (suc fuel) src dst h prev net quiet forward hs hd apart next less room
        empty =
      let differ : (src == dst) ≡ false = ground (arith, apart) in
      let here = read-at g.sp g.n src dst forward.table.width hs hd in
      elim (ℕ_discrete dst h) [
        | yes last ↦
            let e : (dst == h) ≡ true = ground (arith, last) in
            (
              (D.of_int (distance g src dst), net),
              rw
                  (
                    calc_latency,
                    latency_body,
                    differ,
                    here,
                    ◌>>=◌,
                    laws.one_likely,
                    next,
                    e,
                    laws.times_one (D.of_int (distance g src dst)),
                  )
                  refl,
              (refl, λ x. refl),
            )
        | no more ↦
            let e : (dst == h) ≡ false = ground (arith, more) in
            let (hk, some_step, sum, (h', next')) =
              forward.table.nearer src dst h hs hd apart (λ q. more (sym q)) next in
            let none_here = empty src hs (omega arith) in
            let rest =
              calc_latency-Forward fuel h dst h' (some src) (assign src (h ∷ []) net) quiet forward
                hk hd (λ q. more (sym q)) next' (omega (arith, less, sum, some_step))
                (omega (arith, room, sum))
                (λ x hx near.
                  hops-assign_ne src x (h ∷ []) net (λ q.
                    absurd (omega (arith, ap (λ y. distance g y dst) q, near, sum, some_step)))
                  ∙ empty x hx (omega (arith, near, sum))) in
            let r =
              draw_hops-Returns (calc_latency g fuel) fuel src dst h (distance g src h)
                (distance g h dst) prev net quiet forward hs hk none_here refl
                (omega (arith, room, sum)) rest in
            rw
              (
                calc_latency, latency_body, differ, here, ◌>>=◌, laws.one_likely, next, e,
                none_here, next, sum,
              )
              r
      ]
