-- ===== src/Base/Bits.antt =====
-- `&` with a mask of bytes, as arithmetic.
use Prim.Native.Nat.{bit_and, bit_and-bitwise, digits}
use crypto_security_projects.Base.Names.{
  ℕ, zero, suc, ◌+◌, ◌*◌, ◌/◌, ◌%◌, ◌≤◌, ◌≡◌, refl, ap, sym, ◌∙◌, arith, min,
}

-- The conjunction of the lowest `n` bits.
abbrev conj : ℕ → ℕ → ℕ → ℕ
conj zero a b = 0
conj (suc n) a b = min (a % 2) (b % 2) + 2 * conj n (a / 2) (b / 2)

conj-zero : (n b : ℕ) → conj n 0 b ≡ 0
conj-zero zero b = refl
conj-zero (suc n) b = omega (arith, conj-zero n (b / 2))

conj_zero : (n a : ℕ) → conj n a 0 ≡ 0
conj_zero zero a = refl
conj_zero (suc n) a = omega (arith, conj_zero n (a / 2))

-- A number has no more bits than it counts, so more rounds change nothing.
digits-conj :
    (rounds n a b : ℕ) → a ≤ rounds → a ≤ n → digits (λ b. zero) min rounds a b ≡ conj n a b
digits-conj zero n a b within below =
    let none : a ≡ 0 = omega arith in rw none (sym (conj-zero n b))
digits-conj (suc rounds) n zero b within below = sym (conj-zero n b)
digits-conj (suc rounds) zero (suc a) b within below = absurd (omega arith)
digits-conj (suc rounds) (suc n) (suc a) b within below =
    omega (arith, digits-conj rounds n (suc a / 2) (b / 2) (omega arith) (omega arith))

bit_and-conj : (n a b : ℕ) → a ≤ n → bit_and a b ≡ conj n a b
bit_and-conj n a b below = bit_and-bitwise a b ∙ digits-conj a n a b (omega arith) below

bit_and_bit : (a m : ℕ) → bit_and a (m * 2) ≡ bit_and (a / 2) m * 2
bit_and_bit a m =
    let half : m * 2 / 2 ≡ m = omega arith in
    omega (
      arith,
      bit_and-conj (suc a) a (m * 2) (omega arith),
      bit_and-conj a (a / 2) m (omega arith),
      ap (λ (t : ℕ). conj a (a / 2) t) half,
    )

-- From a shift by one factor to a shift by its square.
module _ (k k² : ℕ) (square : (n : ℕ) → n * k * k ≡ n * k²)
    (quotient : (n : ℕ) → n / k / k ≡ n / k²)
    (by_k : (a m : ℕ) → bit_and a (m * k) ≡ bit_and (a / k) m * k) where
  bit_and_square : (a m : ℕ) → bit_and a (m * k²) ≡ bit_and (a / k²) m * k²
  bit_and_square a m =
      ap (bit_and a) (sym (square m))
      ∙ by_k a (m * k)
      ∙ ap (λ (t : ℕ). t * k) (by_k (a / k) m)
      ∙ square (bit_and (a / k / k) m)
      ∙ ap (λ (t : ℕ). bit_and t m * k²) (quotient a)

bit_and_two_bits : (a m : ℕ) → bit_and a (m * 4) ≡ bit_and (a / 4) m * 4
bit_and_two_bits = bit_and_square 2 4 (λ n. omega arith) (λ n. omega arith) bit_and_bit

bit_and_four_bits : (a m : ℕ) → bit_and a (m * 16) ≡ bit_and (a / 16) m * 16
bit_and_four_bits = bit_and_square 4 16 (λ n. omega arith) (λ n. omega arith) bit_and_two_bits

-- A mask that ends in a zero byte keeps nothing of the low byte.
pub bit_and_byte : (a m : ℕ) → bit_and a (m * 256) ≡ bit_and (a / 256) m * 256
bit_and_byte = bit_and_square 16 256 (λ n. omega arith) (λ n. omega arith) bit_and_four_bits

-- Four bits of ones keep four bits, whatever is above them.
conj_nibble : (n a : ℕ) → conj (suc (suc (suc (suc n)))) a 0xf ≡ a % 16
conj_nibble n a = omega (arith, conj_zero n (a / 2 / 2 / 2 / 2))

conj_byte :
    (n a : ℕ) → conj (suc (suc (suc (suc n)))) a 0xff ≡ a % 16 + 16 * conj n (a / 2 / 2 / 2 / 2) 0xf
conj_byte n a = omega arith

-- The lowest eight bits are the remainder of 256.
pub bit_and-255 : (a : ℕ) → bit_and a 0xff ≡ a % 256
bit_and-255 a = omega (
  arith,
  bit_and-conj (suc (suc (suc (suc (suc (suc (suc (suc a)))))))) a 0xff (omega arith),
  conj_byte (suc (suc (suc (suc a)))) a,
  conj_nibble a (a / 2 / 2 / 2 / 2),
)
