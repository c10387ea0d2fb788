-- ===== src/FilterBank/Insert.antt =====
-- `etherinsert`: the bits that it sets, and the count of ports.
use buffalo.Common.Int.{pos, pos_part, ltb_ℤ}
use buffalo.Common.{
  ℕ, zero, suc, ◌+◌, ◌*◌, ◌^◌, ◌≤◌, ◌<◌, ◌==◌, ==_iff, if◌then◌else◌, ◌≡◌, refl, sym, ap, ◌∙◌, ◌||◌,
  true, false, List, some, arith, get_elem?, get_elem?-set_self, get_elem?-set_ne, set, length,
  Returns, Bool-cases, inl, inr, ◌>>=◌, ◌≢◌, [], ◌∷◌,
}
use buffalo.FilterBank.Bit.{bit}
use buffalo.FilterBank.Lookup.{IsLaid}
use buffalo.FilterBank.Slots.{Laid, key-le, drawn, set_bits-Inserted}
use buffalo.FilterBank.{Slot, FilterBank, key, etherinsert, max_bf_count}

-- The bank is laid out, and keeps its ports: the count is at most the largest port seen, plus one.
-- The source's `initialize` overflows before it lays out a table, so no bank of a run is ready.
pub record IsReady (ts : ℕ → List ℕ) (b : FilterBank) : Type 0 where
  pub laid : IsLaid ts b
  pub counted : b.bf_count ≤ pos_part b.max_port
  pub bounded : pos_part b.max_port ≤ max_bf_count

-- The tables after an insert of `addr` at `port`.
pub record Adds (ts us : ℕ → List ℕ) (addr port : ℕ) : Type 0 where
  pub widths : (p : ℕ) → length (us p) ≡ length (ts p)
  pub here : (q : ℕ) → bit (us port) q ≡ (drawn (length (ts port) * 8) addr 8 q || bit (ts port) q)
  pub others : (p : ℕ) → p ≢ port → us p ≡ ts p

get_elem?-lt : (ss : List Slot) (p : ℕ) (s : Slot) → get_elem? ss p ≡ some s → p < length ss
get_elem?-lt [] p s e = cc
get_elem?-lt (x ∷ ss) zero s e = omega arith
get_elem?-lt (x ∷ ss) (suc p) s e = omega (arith, get_elem?-lt ss p s e)

replace : (ℕ → List ℕ) → ℕ → List ℕ → ℕ → List ℕ
replace ts port u p = if p == port then u else ts p

eq_self : (p : ℕ) → (p == p) ≡ true
eq_self p = ground arith

ne_of_test : (p q : ℕ) → (p == q) ≡ false → p ≢ q
ne_of_test p q h e = ground arith

-- The slots after a write of one of them.
slot_after :
    (ts : ℕ → List ℕ) (b : FilterBank) (port : ℕ) (s' : Slot) (u : List ℕ)
    → IsLaid ts b
    → port < max_bf_count
    → Laid u s'
    → (p : ℕ) → p < max_bf_count
    → (x : Slot) × (get_elem? (set b.slots port s') p ≡ some x) × Laid (replace ts port u p) x
unfolding replace
slot_after ts b port s' u laid hp laid' p h =
    let (s, found, _) = laid.slot port hp in
    elim (Bool-cases (p == port)) [
      | inl same ↦ (
        s',
        rw ((==_iff p port).0 same)
            (get_elem?-set_self b.slots port s' (get_elem?-lt b.slots port s found)),
        rw same laid',
      )
      | inr apart ↦
          let (x, at, l) = laid.slot p h in
          (x, get_elem?-set_ne b.slots s' (λ e. ne_of_test p port apart (sym e)) ∙ at, rw apart l)
    ]

replace-widths :
    (ts : ℕ → List ℕ) (port : ℕ) (u : List ℕ)
    → length u ≡ length (ts port)
    → (p : ℕ) → length (replace ts port u p) ≡ length (ts p)
unfolding replace
replace-widths ts port u e p = elim (Bool-cases (p == port)) [
  | inl same ↦ rw (same, (==_iff p port).0 same) e
  | inr apart ↦ rw apart
]

-- The ports that are searched after an insert at `port`.
unfoldable pub grown_count : FilterBank → ℕ → ℕ
grown_count b port = if ltb_ℤ (pos port) b.max_port then b.bf_count else b.bf_count + 1

-- On a ready bank an insert of an address of 16-bit words at a port below 10 ends without a fault:
-- it sets the bits of the address in that port's table and no other bit anywhere, keeps the bank
-- ready, and counts one port more exactly when the port is not below `max_port`.
pub etherinsert-Adds :
    (ts : ℕ → List ℕ) (b : FilterBank) (w1 w2 port : ℕ)
    → IsReady ts b
    → w1 < 2 ^ 16
    → w2 < 2 ^ 16
    → port < max_bf_count
    → Returns
        (λ g.
          (us : ℕ → List ℕ) × IsReady us g
          × Adds ts us (key w1 w2) port
          × (g.bf_count ≡ grown_count b port))
        (etherinsert w1 w2 port b)
unfolding etherinsert grown_count replace
etherinsert-Adds ts b w1 w2 port ready h1 h2 hp =
    let (s, found, laid) = ready.laid.slot port hp in
    let (v, run, (u, e, width, bytes, bits)) =
      set_bits-Inserted (ts port) s laid (key w1 w2) (key-le w1 w2 h1 h2) in
    let s' : Slot = record s { hash_table = some u; element_size = s.element_size + 1 } in
    let laid' : Laid u s' = record {
      points = refl;
      width = laid.width ∙ ap (λ n. n * 8) (sym width);
      nonempty = rw width laid.nonempty;
      bytes = bytes;
      functions = laid.functions;
    } in
    let adds : Adds ts (replace ts port u) (key w1 w2) port = record {
      widths = replace-widths ts port u width;
      here = λ q. rw (eq_self port) (bits q);
      others = λ p h. ground arith;
    } in
    elim (Bool-cases (ltb_ℤ (pos port) b.max_port)) [
      | inl known ↦ (
        record b { slots = set b.slots port s' },
        rw (found, ◌>>=◌, run, e, known),
        (
          replace ts port u,
          record {
            laid = record {
              slot = slot_after ts b port s' u ready.laid hp laid';
              functions = ready.laid.functions;
              ports = ready.laid.ports;
            };
            counted = ready.counted;
            bounded = ready.bounded;
          },
          adds,
          rw known,
        ),
      )
      | inr new ↦ (
        record b {
          slots = set b.slots port s';
          bf_count = b.bf_count + 1;
          max_port = pos (port + 1);
        },
        rw (found, ◌>>=◌, run, e, new),
        (
          replace ts port u,
          record {
            laid = record {
              slot = slot_after ts b port s' u ready.laid hp laid';
              functions = ready.laid.functions;
              ports = ground (arith, ready.counted);
            };
            counted = ground (arith, ready.counted);
            bounded = omega arith;
          },
          adds,
          rw new,
        ),
      )
    ]
