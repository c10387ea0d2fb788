-- ===== src/Common/Bits.antt =====
-- `a & mask` where the mask is a run of ones, for every width, from the digits of `bit_and`.
use Prim.Native.Nat.{
  ℕ, zero, suc, ◌+◌, ◌-◌, ◌*◌, ◌/◌, ◌%◌, ◌^◌, ◌≤◌, ◌<◌, min, bit_and, digits, bit_and-bitwise,
}
use mathlib.Core.Path.{◌≡◌, refl, sym, ap, ◌∙◌}
use native.Mathlib.Nat.{
  add-zero, add-suc, pow-suc, pow-succ', div-add-mod', mod-lt, div-one, div-div-eq-div-mul,
}
use native.Mathlib.Omega.{arith}

-- The digits of `a & b`, as many as the fuel allows.
abbrev both : ℕ → ℕ → ℕ → ℕ
both fuel a b = digits (λ b. zero) min fuel a b

both-zero_left : (fuel b : ℕ) → both fuel 0 b ≡ 0
both-zero_left zero b = refl
both-zero_left (suc fuel) b = refl

both-zero_right : (fuel a : ℕ) → both fuel a 0 ≡ 0
both-zero_right zero zero = refl
both-zero_right zero (suc a) = refl
both-zero_right (suc fuel) zero = refl
both-zero_right (suc fuel) (suc a) = omega (arith, both-zero_right fuel (suc a / 2))

-- `fuel` is enough for a number up to it, so more changes nothing.
both_more : (more fuel a b : ℕ) → a ≤ fuel → both (more + fuel) a b ≡ both fuel a b
both_more more zero a b h =
    let none_left : a ≡ 0 = omega arith in rw none_left (both-zero_left (more + 0) b)
both_more more (suc fuel) zero b h = both-zero_left (more + suc fuel) b
both_more more (suc fuel) (suc a) b h =
    rw add-suc (omega (arith, both_more more fuel (suc a / 2) (b / 2) (omega arith)))

-- The lowest digit of `a & b`, and the rest.
lowest_digit : (a b : ℕ) → bit_and a b ≡ bit_and (a / 2) (b / 2) * 2 + min (a % 2) (b % 2)
lowest_digit zero b = omega (arith, bit_and-bitwise 0 b, bit_and-bitwise 0 (b / 2))
lowest_digit (suc a) b =
    let h = suc a / 2 in
    let split : a - h + h ≡ a = omega arith in
    let same = both_more (a - h) h h (b / 2) (omega arith) in
    let rest = rw split at same in
    omega (arith, bit_and-bitwise (suc a) b, bit_and-bitwise h (b / 2), rest)

-- `w` ones followed by `k` zeros: `(2 ^ w - 1) << k`.
abbrev pub ones : ℕ → ℕ
ones zero = 0
ones (suc w) = ones w * 2 + 1

pub ones-pow : (w : ℕ) → ones w + 1 ≡ 2 ^ w
ones-pow zero = refl
ones-pow (suc w) = rw pow-suc (omega (arith, ones-pow w))

-- The remainder, read off a decomposition.
pub mod_unique : (a m x r : ℕ) → r < m → a ≡ x * m + r → a % m ≡ r
mod_unique a m x r h e = grind arith

pub div_unique : (a m x r : ℕ) → r < m → a ≡ x * m + r → a / m ≡ x
div_unique a m x r h e = grind arith

pub pow-pos : (k : ℕ) → 0 < 2 ^ k
pow-pos k = omega (arith, ones-pow k)

pub pow-add : (m n : ℕ) → 2 ^ (m + n) ≡ 2 ^ m * 2 ^ n
pow-add m zero = rw add-zero (omega arith)
pow-add m (suc n) =
    rw (add-suc, pow-suc 2 (m + n), pow-suc 2 n)
      (omega (arith, ap (λ (t : ℕ). t * 2) (pow-add m n)))

-- One step of a mask whose lowest digit is `c`.
mask_step : (a m c : ℕ) → c < 2 → bit_and a (m * 2 + c) ≡ bit_and (a / 2) m * 2 + min (a % 2) c
mask_step a m c h =
    let half : (m * 2 + c) / 2 ≡ m = omega arith in
    let low : (m * 2 + c) % 2 ≡ c = omega arith in lowest_digit a (m * 2 + c) ∙ rw (half, low)

pub bit_and-zero : (a : ℕ) → bit_and a 0 ≡ 0
bit_and-zero a = bit_and-bitwise a 0 ∙ both-zero_right a a

-- A mask of `w` ones keeps the `w` lowest digits.
pub bit_and-ones : (w a : ℕ) → bit_and a (ones w) ≡ a % 2 ^ w
bit_and-ones zero a = omega (arith, bit_and-zero a)
bit_and-ones (suc w) a =
    let q = 2 ^ w in
    let parts : a / 2 / q * q + a / 2 % q ≡ a / 2 = div-add-mod' (a / 2) q in
    let low : a / 2 % q < q = mod-lt (a / 2) (pow-pos w) in
    sym (
      rw pow-suc (
        mod_unique a (q * 2) (a / 2 / q) _
          (omega (arith, mask_step a (ones w) 1, bit_and-ones w (a / 2)))
          (omega (arith, mask_step a (ones w) 1, bit_and-ones w (a / 2)))))

-- Shifted left by `k`, the mask clears the `k` lowest digits too.
pub bit_and-shifted : (k w a : ℕ) → bit_and a (ones w * 2 ^ k) ≡ (a / 2 ^ k) % 2 ^ w * 2 ^ k
bit_and-shifted zero w a =
    let unit : ones w * 2 ^ 0 ≡ ones w = omega arith in
    rw (div-one, unit) (omega (arith, bit_and-ones w a))
bit_and-shifted (suc k) w a =
    let halves : a / 2 ^ suc k ≡ a / 2 / 2 ^ k =
      rw (pow-succ' 2 k) (sym (div-div-eq-div-mul a 2 (2 ^ k))) in
    let mask : ones w * 2 ^ suc k ≡ ones w * 2 ^ k * 2 + 0 = rw pow-suc (omega arith) in
    rw (halves, mask, pow-suc)
      (omega (arith, mask_step a (ones w * 2 ^ k) 0, bit_and-shifted k w (a / 2)))
