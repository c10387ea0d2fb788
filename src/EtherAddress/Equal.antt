-- ===== src/EtherAddress/Equal.antt =====
-- `operator==` of addresses decides equality, so addresses are keys of a map.
use buffalo.Common.Dict.{Key}
use buffalo.Common.{◌≡◌, true, ◌↔◌, arith}
use buffalo.EtherAddress.{EtherAddress, eq}

same_words :
    (a b : EtherAddress) → a.addr0 ≡ b.addr0 → a.addr1 ≡ b.addr1 → a.addr2 ≡ b.addr2 → a ≡ b
same_words a b e0 e1 e2 = λ i. record { addr0 = e0 i; addr1 = e1 i; addr2 = e2 i }

pub eq_sound : (a b : EtherAddress) → eq a b ≡ true → a ≡ b
unfolding eq
eq_sound a b h = same_words a b (ground arith) (ground arith) (ground arith)

pub eq_self : (a : EtherAddress) → eq a a ≡ true
unfolding eq
eq_self a = ground arith

pub eq_iff : (a b : EtherAddress) → (eq a b ≡ true) ↔ (a ≡ b)
eq_iff a b = (eq_sound a b, λ e. rw e (eq_self b))

instance abbrev pub address_key : Key EtherAddress
address_key = record { same = eq; same_iff = eq_iff }
