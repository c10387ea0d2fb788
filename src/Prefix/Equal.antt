-- ===== src/Prefix/Equal.antt =====
-- `operator==` of prefixes decides equality, so prefixes are keys of a map; `operator<` orders
-- them, so they are elements of a set.
use buffalo.Common.Dict.{Key}
use buffalo.Common.OrdSet.{Order}
use buffalo.Common.{◌≡◌, true, false, ◌↔◌, arith}
use buffalo.Prefix.{Prefix, eq, lt}

same_fields : (p q : Prefix) → p.addr ≡ q.addr → p.len ≡ q.len → p ≡ q
same_fields p q a l = λ i. record { addr = a i; len = l i }

eq_sound : (p q : Prefix) → eq p q ≡ true → p ≡ q
unfolding eq
eq_sound p q h = same_fields p q (ground arith) (ground arith)

eq_self : (p : Prefix) → eq p p ≡ true
unfolding eq
eq_self p = ground arith

pub eq_iff : (p q : Prefix) → (eq p q ≡ true) ↔ (p ≡ q)
eq_iff p q = (eq_sound p q, λ e. rw e (eq_self q))

instance abbrev pub prefix_key : Key Prefix
prefix_key = record { same = eq; same_iff = eq_iff }

pub lt_irrefl : (p : Prefix) → lt p p ≡ false
unfolding lt
lt_irrefl p = ground arith

pub lt_trans : (p q r : Prefix) → lt p q ≡ true → lt q r ≡ true → lt p r ≡ true
unfolding lt
lt_trans p q r h h' = ground arith

pub lt_connected : (p q : Prefix) → lt p q ≡ false → lt q p ≡ false → p ≡ q
unfolding lt
lt_connected p q h h' = same_fields p q (ground arith) (ground arith)

instance abbrev pub prefix_order : Order Prefix
prefix_order = record {
  lt = lt;
  lt_irrefl = lt_irrefl;
  lt_trans = lt_trans;
  lt_connected = lt_connected;
}
