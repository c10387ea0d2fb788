-- ===== src/Lsfib/Latency.antt =====
-- lsfib.cc: `calc_latency`.
use buffalo.Common.Dict.{assign, nat_key}
use buffalo.Common.{
  ℕ, zero, suc, ◌+◌, ◌*◌, ◌==◌, ltb, ◌&&◌, Bool, true, false, List, [], ◌∷◌, Option, none, some,
  get_elem?, length, each, ◌>>=◌,
}
use buffalo.Lsfib.{
  Double, Net, Graph, Tally, Latency, hops, is_prev, size_without, first_choice, next_choice,
  chosen, enumerate,
}

-- The test of the loop over the number of false positives.
unfoldable pub likely : {W : Type 0} ⦃D : Double W⦄ → Graph W → List ℕ → W → W → ℕ → Bool
likely ⦃D⦄ g neighbors prob fp fpcount =
    D.less D.threshold (D.times (D.times fp g.falsepos) prob)
    && ltb (fpcount + 2) (length neighbors)

module _ {W : Type 0} ⦃D : Double W⦄ (g : Graph W) (latency : Latency W) where
  -- One next hop of a set that has false positives in it.
  unfoldable spread : ℕ → ℕ → Option ℕ → W → W → ℕ → ℕ → ℕ → Tally W → Option (Tally W)
  spread src dst prev prob fp size enumer si t =
      let weigh : W → W = λ x. D.over (D.over (D.times x fp) (D.of_int size)) (D.of_int enumer) in
      elim (is_prev prev si) [
        | true ↦ some t
        | false ↦ do
          e ← get_elem? g.sp (src * g.n + si)
          r ← latency si dst (some src) (weigh prob) t.net
          some (record {
            total = D.plus t.total (D.plus (weigh (D.times (D.of_int e.length) prob)) r.0);
            sum = D.minus t.sum (D.over (D.over fp (D.of_int size)) (D.of_int enumer));
            net = r.1;
          })
      ]

  -- The statements for one choice: the packet is sent to every node of the set.
  unfoldable pub try_choice :
      List ℕ → ℕ → ℕ → Option ℕ → W → ℕ → W → ℕ → List ℕ → Tally W → Option (Tally W)
  unfolding spread hops size_without chosen enumerate
  try_choice neighbors src dst prev prob next fp fpcount choose t = do
    newset ← chosen neighbors next fpcount choose
    enumer ← enumerate (length neighbors) fpcount
    let settmp = hops t.net src
    let start = record t { net = assign src newset t.net }
    u ← each newset (spread src dst prev prob fp (size_without prev newset) enumer) start
    some (record u { net = assign src settmp u.net })

  -- `while (cont)`
  unfoldable pub choose_loop :
      ℕ → List ℕ → ℕ → ℕ → Option ℕ → W → ℕ → W → ℕ → List ℕ → Tally W → Option (Tally W)
  unfolding try_choice next_choice
  choose_loop zero neighbors src dst prev prob next fp fpcount choose t = none
  choose_loop (suc fuel) neighbors src dst prev prob next fp fpcount choose t = do
    u ← try_choice neighbors src dst prev prob next fp fpcount choose t
    c ← next_choice (length neighbors) fpcount choose
    elim c.0 [
      | true ↦ choose_loop fuel neighbors src dst prev prob next fp fpcount c.1 u
      | false ↦ some u
    ]

  -- The loop over the number of false positives. It makes fewer rounds than there are neighbours.
  unfoldable pub positives :
      ℕ → ℕ → List ℕ → ℕ → ℕ → Option ℕ → W → ℕ → W → ℕ → Tally W → Option (Tally W)
  unfolding likely choose_loop first_choice
  positives zero fuel neighbors src dst prev prob next fp fpcount t = some t
  positives (suc rounds) fuel neighbors src dst prev prob next fp fpcount t =
      elim (likely g neighbors prob fp fpcount) [
        | false ↦ some t
        | true ↦ do
          let fp' = D.times fp g.falsepos
          choose ← first_choice (fpcount + 1)
          u ← choose_loop fuel neighbors src dst prev prob next fp' (fpcount + 1) choose t
          positives rounds fuel neighbors src dst prev prob next fp' (fpcount + 1) u
      ]

  -- The branch for a node whose next hops are not drawn yet.
  unfoldable pub draw_hops : ℕ → ℕ → ℕ → Option ℕ → W → ℕ → Net → Option (W × Net)
  unfolding positives hops
  draw_hops fuel src dst prev prob next net = do
    neighbors ← get_elem? g.neighbors src
    t ←
        positives (length neighbors) fuel neighbors src dst prev prob next D.one 0
          (record { total = D.nought; sum = D.one; net = net })
    let settmp = hops t.net src
    e ← get_elem? g.sp (src * g.n + next)
    r ← latency next dst (some src) (D.times prob t.sum) (assign src (next ∷ []) t.net)
    some (
      D.plus t.total (D.plus (D.times (D.times (D.of_int e.length) prob) t.sum) r.0),
      assign src settmp r.1,
    )

  -- One next hop of a set that is drawn.
  unfoldable even : ℕ → ℕ → Option ℕ → W → ℕ → ℕ → W × Net → Option (W × Net)
  even src dst prev prob size si t = elim (is_prev prev si) [
    | true ↦ some t
    | false ↦ do
      e ← get_elem? g.sp (src * g.n + si)
      r ← latency si dst (some src) (D.over prob (D.of_int size)) t.1
      some
          (D.plus t.0 (D.plus (D.over (D.times (D.of_int e.length) prob) (D.of_int size)) r.0), r.1)
  ]

  -- The branch for a node whose next hops are drawn.
  unfoldable drawn_hops : ℕ → ℕ → Option ℕ → W → List ℕ → Net → Option (W × Net)
  unfolding even size_without
  drawn_hops src dst prev prob s net =
      each s (even src dst prev prob (size_without prev s)) (D.nought, net)

  -- The body of `calc_latency`. A next hop of -1 leads outside of the table.
  unfoldable pub latency_body : ℕ → Latency W
  unfolding draw_hops drawn_hops hops
  latency_body fuel src dst prev prob net = elim (src == dst) [
    | true ↦ some (D.nought, net)
    | false ↦ do
      e ← get_elem? g.sp (src * g.n + dst)
      let length_here : W × Net = (D.times (D.of_int e.length) prob, net)
      let further : Option (W × Net) = elim (hops net src) [
        | [] ↦ e.next >>= (λ next. draw_hops fuel src dst prev prob next net)
        | x ∷ xs ↦ drawn_hops src dst prev prob (x ∷ xs) net
      ]
      elim (D.less prob D.threshold) [
        | true ↦ some length_here
        | false ↦ elim (is_prev e.next dst) [ true ↦ some length_here | false ↦ further ]
      ]
  ]

-- The fuel bounds the depth of the recursion and, at each depth, the number of choices.
unfoldable pub calc_latency : {W : Type 0} ⦃D : Double W⦄ → Graph W → ℕ → Latency W
unfolding latency_body
calc_latency g zero src dst prev prob net = none
calc_latency g (suc fuel) src dst prev prob net =
    latency_body g (calc_latency g fuel) fuel src dst prev prob net
