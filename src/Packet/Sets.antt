-- ===== src/Packet/Sets.antt =====
-- The sets that are read hold exactly the prefixes of the file.
use mathlib.Core.Option.{some-injective, none-ne-some}
use mathlib.Core.Bool.{false≢true}
use buffalo.Common.OrdSet.{
  insert, member, member-Elem, Elem-member, Elem-insert, Elem-insert_self, Elem-insert_inv,
  nat_order,
}
use buffalo.Common.{
  ℕ, zero, suc, ◌<◌, ◌≤◌, ◌≡◌, refl, sym, ◌∙◌, ap, true, List, [], ◌∷◌, none, some, arith, get_or,
  get_elem?, set, length, Option-cases, Elem, inl, inr, ◌⊎◌, ◌↔◌, each, ◌>>=◌, replicate,
}
use buffalo.Fib.Blocks.{block}
use buffalo.Fib.Build.Filled.{get_elem?-lt}
use buffalo.Packet.{Sets, no_prefixes, add_prefix, read_fib}
use buffalo.Prefix.{Prefix}

-- An address of the file of prefixes, with its length.
abbrev pub Listed : List Prefix → ℕ → Type 0
Listed rows test = (l : ℕ) × (0 < l) × (l ≤ 32) × Elem (block test l) rows

get_or-set :
    {A : Type 0} (xs : List A) (i j : ℕ) (v d : A)
    → (get_or (set xs i v) j d ≡ get_or xs j d) ⊎ ((j ≡ i) × (get_or (set xs i v) j d ≡ v))
get_or-set [] i j v d = inl refl
get_or-set (x ∷ xs) zero zero v d = inr (refl, refl)
get_or-set (x ∷ xs) zero (suc j) v d = inl refl
get_or-set (x ∷ xs) (suc i) zero v d = inl refl
get_or-set (x ∷ xs) (suc i) (suc j) v d = elim (get_or-set xs i j v d) [
  | inl e ↦ inl e
  | inr (e, e') ↦ inr (ap suc e, e')
]

get_or-get_elem? :
    {A : Type 0} (xs : List A) (i : ℕ) (v d : A) → get_elem? xs i ≡ some v → get_or xs i d ≡ v
get_or-get_elem? [] i v d e = absurd (none-ne-some _ e)
get_or-get_elem? (x ∷ xs) zero v d e = some-injective _ _ e
get_or-get_elem? (x ∷ xs) (suc i) v d e = get_or-get_elem? xs i v d e

add_prefix-member :
    (p : Prefix) (pfx next : Sets)
    → add_prefix p pfx ≡ some next
    → (l a : ℕ) → member a (get_or next l []) ≡ true
    → (member a (get_or pfx l []) ≡ true) ⊎ (record { addr = a; len = l } ≡ p)
unfolding add_prefix
add_prefix-member p pfx next e l a h = elim (Option-cases (get_elem? pfx p.len)) [
  | inl out ↦
      let run : add_prefix p pfx ≡ none = rw (out, ◌>>=◌) refl in
      absurd (none-ne-some _ (sym run ∙ e))
  | inr (addrs, here) ↦
      let grown = set pfx p.len (insert p.addr addrs) in
      let run : add_prefix p pfx ≡ some grown = rw (here, ◌>>=◌) refl in
      let same : grown ≡ next = some-injective _ _ (sym run ∙ e) in
      let h' : member a (get_or grown l []) ≡ true = rw same h in
      elim (get_or-set pfx p.len l (insert p.addr addrs) []) [
        | inl e' ↦ inl (rw (← e') h')
        | inr (at_len, e') ↦ elim (Elem-insert_inv a p.addr addrs (member-Elem a _ (rw e' at h'))) [
          | inl new ↦ inr (λ i. record { addr = new i; len = at_len i })
          | inr old ↦
              let set_l : get_or pfx l [] ≡ addrs =
                rw at_len (get_or-get_elem? pfx p.len addrs [] here) in
              inl (rw set_l (Elem-member a addrs old))
        ]
      ]
]

-- The sets hold what is read.
rows_read :
    (rows : List Prefix) (pfx sets : Sets)
    → each rows add_prefix pfx ≡ some sets
    → (l a : ℕ) → member a (get_or sets l []) ≡ true
    → (member a (get_or pfx l []) ≡ true) ⊎ Elem (record { addr = a; len = l }) rows
unfolding each
rows_read [] pfx sets e l a h = inl (rw (some-injective _ _ e) h)
rows_read (p ∷ rows) pfx sets e l a h = elim (Option-cases (add_prefix p pfx)) [
  | inl stuck ↦
      let run : each (p ∷ rows) add_prefix pfx ≡ none = rw (stuck, ◌>>=◌) refl in
      absurd (none-ne-some _ (sym run ∙ e))
  | inr (next, step) ↦
      let run : each (p ∷ rows) add_prefix pfx ≡ each rows add_prefix next =
        rw (step, ◌>>=◌) refl in
      elim (rows_read rows next sets (sym run ∙ e) l a h) [
        | inl before ↦ elim (add_prefix-member p pfx next step l a before) [
          | inl old ↦ inl old
          | inr same ↦ inr (inl same)
        ]
        | inr later ↦ inr (inr later)
      ]
]

get_or-set_self :
    {A : Type 0} (xs : List A) (i : ℕ) (v d : A) → i < length xs → get_or (set xs i v) i d ≡ v
get_or-set_self [] i v d h = elim h [ ]
get_or-set_self (x ∷ xs) zero v d h = refl
get_or-set_self (x ∷ xs) (suc i) v d h = get_or-set_self xs i v d (omega arith)

-- A row adds its own address, and takes none away.
add_prefix-adds :
    (p : Prefix) (pfx next : Sets)
    → add_prefix p pfx ≡ some next
    → (l a : ℕ) → (member a (get_or pfx l []) ≡ true) ⊎ (record { addr = a; len = l } ≡ p)
    → member a (get_or next l []) ≡ true
unfolding add_prefix
add_prefix-adds p pfx next e l a h = elim (Option-cases (get_elem? pfx p.len)) [
  | inl out ↦
      let run : add_prefix p pfx ≡ none = rw (out, ◌>>=◌) refl in
      absurd (none-ne-some _ (sym run ∙ e))
  | inr (addrs, here) ↦
      let grown = set pfx p.len (insert p.addr addrs) in
      let run : add_prefix p pfx ≡ some grown = rw (here, ◌>>=◌) refl in
      let same : grown ≡ next = some-injective _ _ (sym run ∙ e) in
      let inside = get_elem?-lt pfx p.len addrs here in
      let at_p = get_or-set_self pfx p.len (insert p.addr addrs) [] inside in
      rw (← same) elim h [
        | inl old ↦ elim (get_or-set pfx p.len l (insert p.addr addrs) []) [
          | inl e' ↦ rw e' old
          | inr (at_len, e') ↦
              let set_l : get_or pfx l [] ≡ addrs =
                rw at_len (get_or-get_elem? pfx p.len addrs [] here) in
              rw e' (
                Elem-member a (insert p.addr addrs)
                  (Elem-insert a p.addr addrs (member-Elem a addrs (rw set_l at old))))
        ]
        | inr new ↦
            rw (ap (λ q. q.len) new, ap (λ q. q.addr) new, at_p)
              (Elem-member p.addr (insert p.addr addrs) (Elem-insert_self p.addr addrs))
      ]
]

rows_kept :
    (rows : List Prefix) (pfx sets : Sets)
    → each rows add_prefix pfx ≡ some sets
    → (l a : ℕ) → (member a (get_or pfx l []) ≡ true) ⊎ Elem (record { addr = a; len = l }) rows
    → member a (get_or sets l []) ≡ true
unfolding each
rows_kept [] pfx sets e l a h = elim h [
  | inl old ↦ rw (← some-injective _ _ e) old
  | inr none_left ↦ absurd none_left
]
rows_kept (p ∷ rows) pfx sets e l a h = elim (Option-cases (add_prefix p pfx)) [
  | inl stuck ↦
      let run : each (p ∷ rows) add_prefix pfx ≡ none = rw (stuck, ◌>>=◌) refl in
      absurd (none-ne-some _ (sym run ∙ e))
  | inr (next, step) ↦
      let run : each (p ∷ rows) add_prefix pfx ≡ each rows add_prefix next =
        rw (step, ◌>>=◌) refl in
      rows_kept rows next sets (sym run ∙ e) l a elim h [
        | inl old ↦ inl (add_prefix-adds p pfx next step l a (inl old))
        | inr m ↦ elim m [
          | inl here ↦ inl (add_prefix-adds p pfx next step l a (inr here))
          | inr m' ↦ inr m'
        ]
      ]
]

abbrev no_list : List ℕ
no_list = []

no_prefixes-none : (k l : ℕ) → get_or (replicate k no_list) l [] ≡ []
no_prefixes-none zero l = refl
no_prefixes-none (suc k) zero = refl
no_prefixes-none (suc k) (suc l) = no_prefixes-none k l

-- After reading, a set has an address exactly if the file has the prefix.
pub read_fib-member :
    (rows : List Prefix) (sets : Sets)
    → read_fib rows ≡ some sets
    → (l a : ℕ) → (member a (get_or sets l []) ≡ true) ↔ Elem (record { addr = a; len = l }) rows
unfolding read_fib no_prefixes member
read_fib-member rows sets e l a = (
  λ h. elim (rows_read rows no_prefixes sets e l a h) [
    | inl old ↦ absurd (false≢true (rw (no_prefixes-none 33 l) at old))
    | inr m ↦ m
  ],
  λ m. rows_kept rows no_prefixes sets e l a (inr m),
)
