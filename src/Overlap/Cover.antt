-- ===== src/Overlap/Cover.antt =====
-- The splitting ends, and keeps the addresses that the table covers.
use Prim.Native.Nat.{bit_and}
use native.Mathlib.Decide.{ℕ_discrete}
use native.Mathlib.Nat.{add-div_right, div-div-eq-div-mul, pow-suc}
use buffalo.Common.Bits.{div_unique, pow-pos}
use buffalo.Common.OrdSet.{
  member, erase, Elem-insert, Elem-insert_self, Elem-insert_inv, member-Elem, Elem-erase,
  Elem-erase_inv,
}
use buffalo.Common.{
  ℕ, suc, ◌+◌, ◌-◌, ◌*◌, ◌/◌, ◌%◌, ◌^◌, ◌≤◌, ◌<◌, ◌==◌, leb, ◌&&◌, Bool, true, false, Bool-cases,
  if◌then◌else◌, ◌≡◌, refl, sym, ap, subst, ◌∙◌, List, [], ◌∷◌, some, arith, all_below,
  all_below_sound, ==_iff, Elem, inl, inr, ◌⊎◌, Returns, ◌>>=◌,
}
use buffalo.Fib.Blocks.{block, run, bit_and-run, block-IsValid, block-Covers}
use buffalo.Overlap.{Splitting, contains_other, half_mask, lower_half, upper_half, add_half, split}
use buffalo.Prefix.Contains.{IsValid, lead, lead-mul, contains-lead}
use buffalo.Prefix.Equal.{prefix_order}
use buffalo.Prefix.Subset.{Covers, lead_shorter, addr-room}
use buffalo.Prefix.{Prefix, ne}

half_masks : all_below 32 (λ l. half_mask l == run (suc l)) ≡ true
unfolding all_below half_mask run
half_masks = refl

half_mask-run : (l : ℕ) → l < 32 → half_mask l ≡ run (suc l)
half_mask-run l h = (==_iff _ _).0 (all_below_sound 32 _ l half_masks h)

halved :
    (p : Prefix) (a : ℕ)
    → a < 2 ^ 32
    → p.len < 32
    → record { addr = bit_and a (half_mask p.len); len = (p.len + 1) % 2 ^ 8 } ≡ block a (suc p.len)
unfolding block
halved p a small h =
    let len : (p.len + 1) % 2 ^ 8 ≡ suc p.len = omega arith in
    rw (half_mask-run p.len h, bit_and-run a (suc p.len) small (omega arith), len) refl

-- An address of a block of `2 * half` is in its first or its second half.
which_half :
    (x a half : ℕ)
    → 0 < half
    → x / half / 2 ≡ a / half / 2
    → a / half % 2 ≡ 0
    → (x / half ≡ a / half) ⊎ (x / half ≡ (a + half) / half)
which_half x a half positive same even =
    let next : (a + half) / half ≡ a / half + 1 = add-div_right a positive in
    elim (ℕ_discrete (x / half) (a / half)) [ yes e ↦ inl e | no apart ↦ inr (omega (arith, next)) ]

-- The parts of a valid prefix below the length 32.
pub record Halves (p : Prefix) : Type 0 where
  pub lower : IsValid (lower_half p)
  pub upper : IsValid (upper_half p)
  pub lower_len : (lower_half p).len ≡ suc p.len
  pub upper_len : (upper_half p).len ≡ suc p.len
  pub lower_inside : Covers p (lower_half p).addr
  pub upper_inside : Covers p (upper_half p).addr
  pub cover : (x : ℕ) → Covers p x → Covers (lower_half p) x ⊎ Covers (upper_half p) x

-- A block covers what has the same leading bits as the address it is made from.
block-Covers_same : (a x l : ℕ) → x / 2 ^ (32 - l) ≡ a / 2 ^ (32 - l) → Covers (block a l) x
unfolding block
block-Covers_same a x l e = e ∙ block-Covers a l

block-len : (a l : ℕ) → (block a l).len ≡ l
unfolding block
block-len a l = refl

-- A block of an address that a shorter prefix covers is inside it.
block_inside : (p : Prefix) (a l : ℕ) → p.len ≤ l → l ≤ 32 → Covers p a → Covers p (block a l).addr
unfolding block
block_inside p a l le short c =
    let b = block a l in
    lead_shorter p b b.addr le short
    ∙ ap (λ x. x / 2 ^ (l - p.len)) (sym (block-Covers a l))
    ∙ sym (lead_shorter p b a le short)
    ∙ c

pub valid-Halves : (p : Prefix) → IsValid p → p.len < 32 → Halves p
unfolding lower_half upper_half
valid-Halves p v h =
    let half = 2 ^ (32 - suc p.len) in
    let y = lead p p.addr in
    let positive = pow-pos (32 - suc p.len) in
    let power : 31 - p.len ≡ 32 - suc p.len = omega arith in
    let whole : 2 ^ (32 - p.len) ≡ half * 2 =
      ap (λ e. 2 ^ e) {x = 32 - p.len} {y = suc (32 - suc p.len)} (omega arith)
      ∙ pow-suc 2 (32 - suc p.len) in
    let back : y * (half * 2) ≡ p.addr = ap (λ s. y * s) (sym whole) ∙ lead-mul p v in
    let doubled : p.addr / half ≡ y * 2 =
      div_unique p.addr half (y * 2) 0 positive (omega (arith, back)) in
    let even : p.addr / half % 2 ≡ 0 = rw doubled (omega arith) in
    let room : p.addr + half < 2 ^ 32 = omega (arith, addr-room p v, whole, positive) in
    let fits : (p.addr + 2 ^ (31 - p.len)) % 2 ^ 32 ≡ p.addr + half =
      rw power (omega (arith, room)) in
    let low : lower_half p ≡ block p.addr (suc p.len) = halved p p.addr v.bits h in
    let high : upper_half p ≡ block (p.addr + half) (suc p.len) =
      rw fits (halved p (p.addr + half) room h) in
    record {
      lower =
          subst IsValid (sym low)
            (block-IsValid p.addr (suc p.len) v.bits (omega arith) (omega arith));
      upper =
          subst IsValid (sym high)
            (block-IsValid (p.addr + half) (suc p.len) room (omega arith) (omega arith));
      lower_len = ap (λ q. q.len) low ∙ block-len p.addr (suc p.len);
      upper_len = ap (λ q. q.len) high ∙ block-len (p.addr + half) (suc p.len);
      lower_inside =
          subst (λ q. Covers p q.addr) (sym low)
            (block_inside p p.addr (suc p.len) (omega arith) (omega arith) refl);
      upper_inside =
          let middle : (p.addr + half) / 2 ^ (32 - p.len) ≡ y =
            ap (λ s. (p.addr + half) / s) whole
            ∙ (div_unique (p.addr + half) (half * 2) y half (omega (arith, positive))
                (omega (arith, back))) in
          subst (λ q. Covers p q.addr) (sym high)
            (block_inside p (p.addr + half) (suc p.len) (omega arith) (omega arith) middle);
      cover = λ x c.
          let same : x / half / 2 ≡ p.addr / half / 2 =
            div-div-eq-div-mul x half 2 ∙ rw whole at c ∙ sym (div-div-eq-div-mul p.addr half 2) in
          elim (which_half x p.addr half positive same even) [
            | inl e ↦
                inl (subst (λ q. Covers q x) (sym low) (block-Covers_same p.addr x (suc p.len) e))
            | inr e ↦ inr (
                subst (λ q. Covers q x) (sym high)
                  (block-Covers_same (p.addr + half) x (suc p.len) e))
          ];
    }

-- The prefixes are valid, and those of `before` are covered still.
pub record Covering (before after : List Prefix) : Type 0 where
  pub valid : (p : Prefix) → Elem p after → IsValid p
  pub kept :
      (x : ℕ) → (p : Prefix) × Elem p before × Covers p x → (q : Prefix) × Elem q after × Covers q x

pub contains_other-some :
    (p : Prefix) (qs : List Prefix)
    → IsValid p
    → ((q : Prefix) → Elem q qs → IsValid q)
    → (b : Bool) × (contains_other p qs ≡ some b)
unfolding contains_other
contains_other-some p [] v valid = (false, refl)
contains_other-some p (q ∷ qs) v valid =
    let (b, run) = contains_other-some p qs v (λ r m. valid r (inr m)) in
    let answer = contains-lead p q v (valid q (inl refl)) in
    elim (Bool-cases (ne p q)) [
      | inl apart ↦ elim (Bool-cases (leb p.len q.len && lead p p.addr == lead p q.addr)) [
        | inl within ↦ (true, rw (apart, answer, ◌>>=◌, within) refl)
        | inr without ↦ (b, rw (apart, answer, ◌>>=◌, without) run)
      ]
      | inr same ↦ (b, rw same run)
    ]

-- Adding a half keeps what is there.
pub add_half-Elem :
    (whole half q : Prefix) (s : Splitting)
    → (q ≡ half) ⊎ Elem q s.newlist
    → Elem q (add_half whole half s).newlist
unfolding add_half
add_half-Elem whole half q s m = elim (Bool-cases (member half s.newlist)) [
  | inl here ↦ rw here (elim m [ inl e ↦ rw e (member-Elem half s.newlist here) | inr old ↦ old ])
  | inr new ↦ rw new (elim m [
    | inl e ↦ rw e (Elem-insert_self half s.newlist)
    | inr old ↦ Elem-insert q half s.newlist old
  ])
]

pub add_half-Elem_inv :
    (whole half q : Prefix) (s : Splitting)
    → Elem q (add_half whole half s).newlist
    → (q ≡ half) ⊎ Elem q s.newlist
unfolding add_half
add_half-Elem_inv whole half q s = elim (Bool-cases (member half s.newlist)) [
  | inl here ↦ rw here (λ m. inr m)
  | inr new ↦ rw new (λ m. Elem-insert_inv q half s.newlist m)
]

pub split-Covering :
    (p : Prefix) (s : Splitting)
    → IsValid p
    → p.len < 32
    → ((q : Prefix) → Elem q s.newlist → IsValid q)
    → Returns (λ u. Covering s.newlist u.newlist) (split p s)
unfolding split
split-Covering p s v h valid =
    let (b, run) = contains_other-some p s.newlist v valid in
    let halves = valid-Halves p v h in
    let without : Splitting = record s { newlist = erase p s.newlist } in
    let one = add_half p (lower_half p) without in
    let both = add_half p (upper_half p) one in
    (
      (if b then both else s),
      rw (run, ◌>>=◌) refl,
      elim (Bool-cases b) [
        | inl divided ↦ rw divided record {
          valid = λ q m. elim (add_half-Elem_inv p (upper_half p) q one m) [
            | inl e ↦ rw e halves.upper
            | inr m' ↦ elim (add_half-Elem_inv p (lower_half p) q without m') [
              | inl e ↦ rw e halves.lower
              | inr old ↦ valid q (Elem-erase_inv q p s.newlist old)
            ]
          ];
          kept = λ x (q, m, c). elim (Elem-erase q p s.newlist m) [
            | inl e ↦ elim (halves.cover x (rw (← e) c)) [
              | inl low ↦ (
                lower_half p,
                add_half-Elem p (upper_half p) (lower_half p) one
                    (inr (add_half-Elem p (lower_half p) (lower_half p) without (inl refl))),
                low,
              )
              | inr high ↦
                  (upper_half p, add_half-Elem p (upper_half p) (upper_half p) one (inl refl), high)
            ]
            | inr left ↦ (
              q,
              add_half-Elem p (upper_half p) q one
                  (inr (add_half-Elem p (lower_half p) q without (inr left))),
              c,
            )
          ];
        }
        | inr whole ↦ rw whole record { valid = valid; kept = λ x covered. covered }
      ],
    )
