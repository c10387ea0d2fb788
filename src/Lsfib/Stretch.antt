-- ===== src/Lsfib/Stretch.antt =====
-- lsfib.cc: what `main` writes where no false positive is likely enough to be followed.
use buffalo.Common.Dict.{nat_key}
use buffalo.Common.{
  ◌++◌, if◌then◌else◌, ℕ, suc, ◌+◌, ◌-◌, ◌*◌, ◌≤◌, ◌<◌, Bool, true, false, Bool-cases, ◌≡◌, ◌≢◌,
  refl, ◌∙◌, List, [], ◌∷◌, Option-cases, none, some, arith, inl, inr, length, length-append,
  length-replicate, replicate, Elem, for-Returns, Returns, ◌>>=◌,
}
use buffalo.Fib.Main.Ready.{Elem-append_one}
use buffalo.Lsfib.Main.{
  DataScheme, data_isp, Argument, Options, Topology, Measured, maxnode, set_options, measure,
  is_flow, pair, pairs, averages, main,
}
use buffalo.Lsfib.Run.{IsDouble, Forward, distance, calc_latency-Forward, get_elem?-inside}
use buffalo.Lsfib.{Double, Graph, hops}
use buffalo.ShortestPath.Hops.{calc_shortest_path-NextHops}
use buffalo.ShortestPath.Round.{at, read-at}
use buffalo.ShortestPath.{Entry, infinity}
use buffalo.Lsfib.Read.{read_links-Reading, Fits, read_nodes-Returns, clear_net}

module _ {W : Type 0} ⦃D : Double W⦄ where
  -- What the loop over the pairs keeps.
  pub record Straight (t : Measured W) : Type 0 where
    pub flat : (x : W) → Elem x t.outf → x ≡ D.nought
    pub counted : length t.outf ≡ t.flowcount
    pub average : t.avgstretch ≡ D.nought
    pub most : t.maxstretch ≡ D.nought
    pub clear : (x : ℕ) → hops t.net x ≡ []

  module _ (laws : IsDouble W) (g : Graph W) (fuel : ℕ) (forward : Forward g)
      (quiet : D.less D.threshold g.falsepos ≡ false) (enough : infinity ≤ fuel) where
    measure-Straight :
        (src dst h : ℕ) (t : Measured W)
        → src < g.n
        → dst < g.n
        → src ≢ dst
        → (at g.sp g.n src dst).next ≡ some h
        → Straight t
        → Returns Straight (measure g fuel src dst t)
    unfolding measure
    measure-Straight src dst h t hs hd apart next p =
        let table = forward.table in
        let (pos, short) = table.short src dst h hs hd apart next in
        let (r, run, (value, same)) =
          calc_latency-Forward laws g fuel src dst h none t.net quiet forward hs hd apart next
            (omega (arith, short, enough)) (omega (arith, short)) (λ x hx near. p.clear x) in
        let len = D.of_int (distance g src dst) in
        let stretch = D.over (D.minus r.0 len) len in
        let none_at_all : stretch ≡ D.nought =
          rw
            (value, laws.minus_self (distance g src dst), laws.nought_over (distance g src dst) pos)
            refl in
        (
          record {
            flowcount = t.flowcount + 1;
            real_path = D.plus t.real_path len;
            avgstretch = D.plus t.avgstretch stretch;
            maxstretch = if D.less t.maxstretch stretch then stretch else t.maxstretch;
            minstretch = if D.less stretch t.minstretch then stretch else t.minstretch;
            outf = t.outf ++ stretch ∷ [];
            net = r.1;
          },
          rw (read-at g.sp g.n src dst table.width hs hd, run, ◌>>=◌) refl,
          record {
            flat = λ x m. elim (Elem-append_one x stretch t.outf m) [
              | inl old ↦ p.flat x old
              | inr e ↦ e ∙ none_at_all
            ];
            counted = omega (arith, length-append t.outf (stretch ∷ []), p.counted);
            average = rw (p.average, none_at_all, laws.nought_plus D.nought) refl;
            most = rw (p.most, none_at_all, laws.less_irrefl D.nought) refl;
            clear = λ x. same x ∙ p.clear x;
          },
        )

    -- A pair that is measured has a next hop.
    is_flow-next :
        (node : List Bool) (src dst : ℕ)
        → g.n ≤ length node
        → src < g.n
        → dst < g.n
        → Returns
            (λ flow. flow ≡ true → (h : ℕ) × ((at g.sp g.n src dst).next ≡ some h))
            (is_flow g node src dst)
    unfolding is_flow
    is_flow-next node src dst nodes hs hd =
        let (from, at_src) = get_elem?-inside node src (omega (arith, nodes, hs)) in
        let (to, at_dst) = get_elem?-inside node dst (omega (arith, nodes, hd)) in
        let read = read-at g.sp g.n src dst forward.table.width hs hd in
        elim (Bool-cases from) [
          | inr off ↦ (false, rw (at_src, ◌>>=◌, off) refl, λ e. cc)
          | inl on ↦ elim (Bool-cases to) [
            | inr off ↦ (false, rw (at_src, ◌>>=◌, on, at_dst, off) refl, λ e. cc)
            | inl on' ↦ elim (Option-cases (at g.sp g.n src dst).next) [
              | inl missing ↦
                  (false, rw (at_src, ◌>>=◌, on, at_dst, on', read, missing) refl, λ e. cc)
              | inr there ↦
                  (true, rw (at_src, ◌>>=◌, on, at_dst, on', read, there.1) refl, λ e. there)
            ]
          ]
        ]

    pairs-Straight :
        (node : List Bool) (t : Measured W)
        → g.n ≤ length node
        → Straight t
        → Returns Straight (pairs g node fuel t)
    unfolding pairs pair
    pairs-Straight node t nodes p =
        for-Returns (λ src. Straight) g.n _ g.n 0 t (omega arith)
          (λ src u low hs q.
            for-Returns (λ dst. Straight) g.n _ (g.n - suc src) (suc src) u (omega (arith, hs))
              (λ dst v above hd r.
                let (flow, run, there) = is_flow-next node src dst nodes hs hd in
                let apart : src ≢ dst = λ e. absurd (omega (arith, e, above)) in
                elim (Bool-cases flow) [
                  | inl yes_flow ↦
                      let (h, next) = there yes_flow in
                      rw (run, ◌>>=◌, yes_flow) (measure-Straight src dst h v hs hd apart next r)
                  | inr no_flow ↦ (v, rw (run, ◌>>=◌, no_flow) refl, r)
                ])
              q)
          p

  pub main-Straight :
      (files : DataScheme → Topology) (node : List Bool) (fresh : ℕ → List Entry) (fuel : ℕ)
      (args : List Argument)
      → IsDouble W
      → length node ≡ maxnode
      → ((k : ℕ) → length (fresh k) ≡ k)
      → infinity ≤ fuel
      → let o : Options W =
          set_options args (record { datascheme = data_isp; fpexp = 3; falsepos = D.thousandth }) in
        Fits (files o.datascheme)
        → D.less D.threshold o.falsepos ≡ false
        → Returns
            (λ t.
              ((x : W) → Elem x t.outf → x ≡ D.nought)
              × (length t.outf ≡ t.flowcount)
              × (t.maxstretch ≡ D.nought)
              × (0 < t.flowcount → t.avgstretch ≡ D.nought))
            (main files node fresh fuel args)
  unfolding main averages
  main-Straight files node fresh fuel args laws len sizes enough fits quiet =
      let o : Options W =
        set_options args (record { datascheme = data_isp; fpexp = 3; falsepos = D.thousandth }) in
      let file = files o.datascheme in
      let (nodes, run, len') = read_nodes-Returns file.nodes node len fits.nodes_inside in
      let (ls, run', reading) =
        read_links-Reading file.n (length file.links) file.links
          (record { link = []; maxlen = D.nought; neighbors = replicate maxnode [] }) fits.few_nodes
          fits.few_links fits.ends fits.weighted
          (record {
            lists = length-replicate {A = List ℕ} maxnode [];
            in_range = tt;
            weighted = tt;
            count = omega arith;
          }) in
      let (sp, run'', table) =
        calc_shortest_path-NextHops (fresh (file.n * file.n)) file.n (length file.links) ls.link
          (sizes (file.n * file.n)) (omega (arith, reading.count)) reading.in_range
          reading.weighted in
      let g : Graph W = record {
        sp = sp;
        n = file.n;
        neighbors = ls.neighbors;
        falsepos = o.falsepos;
      } in
      let forward : Forward g = record {
        table = table;
        all_nodes = omega (arith, reading.lists, fits.few_nodes);
      } in
      let (t, run3, straight) =
        pairs-Straight laws g fuel forward quiet enough nodes
          (record {
            flowcount = 0;
            real_path = D.nought;
            avgstretch = D.nought;
            maxstretch = D.nought;
            minstretch = D.large;
            outf = [];
            net = [];
          })
          (omega (arith, len', fits.few_nodes))
          (record {
            flat = λ x m. absurd m;
            counted = refl;
            average = refl;
            most = refl;
            clear = λ x. clear_net x;
          }) in
      (
        averages t,
        rw (run, ◌>>=◌, run', run'', run3) refl,
        (
          straight.flat,
          straight.counted,
          straight.most,
          λ some_flow. rw straight.average (laws.nought_over t.flowcount some_flow),
        ),
      )
