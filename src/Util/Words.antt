-- ===== src/Util/Words.antt =====
-- `util.uint32toBuffer`, `util.bufferToUint32` and `util.getRandom` in plain arithmetic.
use Prim.Native.Nat.{bit_and}
use crypto_security_projects.Base.{
  ℕ, zero, suc, ◌+◌, ◌*◌, ◌/◌, ◌%◌, ◌^◌, ◌≤◌, ◌<◌, ◌≡◌, ◌↔◌, ◌⊎◌, refl, arith, inl, inr, some, List,
  ap, [], ◌∷◌,
}
use crypto_security_projects.Base.Bits.{bit_and-255, bit_and_byte}
use crypto_security_projects.Base.Int.{ℤ, pos, negsuc, ◌+ℤ◌, to_uint32, to_uint8, signed32}
use crypto_security_projects.Js.{ok, throw, array_buffer, invalid_max}
use crypto_security_projects.Util.{uint32_to_buffer, buffer_to_uint32, sum_bytes, sar24, get_random}

-- The four bytes of a 32-bit pattern, the lowest first.
abbrev pub little_endian : ℕ → List ℕ
little_endian w = (w % 256) ∷ (w / 256 % 256) ∷ (w / 65536 % 256) ∷ (w / 16777216 % 256) ∷ []

second_byte : (w : ℕ) → bit_and w 0x0000_ff00 / 2 ^ 8 ≡ w / 256 % 256
second_byte w = omega (arith, bit_and_byte w 0xff, bit_and-255 (w / 256))

third_byte : (w : ℕ) → bit_and w 0x00ff_0000 / 2 ^ 16 ≡ w / 65536 % 256
third_byte w =
    omega (arith, bit_and_byte w 0xff00, bit_and_byte (w / 256) 0xff, bit_and-255 (w / 256 / 256))

to_uint32-lt : (v : ℤ) → to_uint32 v < 2 ^ 32
to_uint32-lt v = ground arith

high_byte : (w : ℕ) → bit_and w 0xff00_0000 ≡ w / 16777216 % 256 * 16777216
high_byte w = omega (
  arith,
  bit_and_byte w 0xff_0000,
  bit_and_byte (w / 256) 0xff00,
  bit_and_byte (w / 256 / 256) 0xff,
  bit_and-255 (w / 256 / 256 / 256),
)

-- The sign that the shift keeps is undone by the store.
signed_shift : (b : ℕ) → b < 256 → to_uint8 (sar24 (signed32 (b * 16777216))) ≡ b
signed_shift b h = ground arith

last_byte : (w : ℕ) → to_uint8 (sar24 (signed32 (bit_and w 0xff00_0000))) ≡ w / 16777216 % 256
last_byte w = rw high_byte (signed_shift (w / 16777216 % 256) (omega arith))

pub uint32_to_buffer_lem : (v : ℤ) → uint32_to_buffer v ≡ little_endian (to_uint32 v)
unfolding uint32_to_buffer
uint32_to_buffer_lem v =
    let w = to_uint32 v in cc (bit_and-255 w, second_byte w, third_byte w, last_byte w)

sum_little_endian : (w : ℕ) → w < 2 ^ 32 → sum_bytes (little_endian w) ≡ some (signed32 w)
unfolding sum_bytes ◌+ℤ◌
sum_little_endian w h = ground arith

pub sum_bytes-uint32_to_buffer :
    (v : ℤ) → sum_bytes (uint32_to_buffer v) ≡ some (signed32 (to_uint32 v))
sum_bytes-uint32_to_buffer v =
    rw uint32_to_buffer_lem (sum_little_endian (to_uint32 v) (to_uint32-lt v))

-- Reading back gives the signed number that the low 32 bits of the value stand for.
pub buffer_to_uint32-uint32_to_buffer :
    (v : ℤ)
    → buffer_to_uint32 (array_buffer (uint32_to_buffer v)) ≡ ok (some (signed32 (to_uint32 v)))
unfolding buffer_to_uint32
buffer_to_uint32-uint32_to_buffer v = ap ok (sum_bytes-uint32_to_buffer v)

scaled_le : (max sample : ℕ) → sample ≤ 65535 → max * sample / 65535 ≤ max
scaled_le max sample h = let product : max * sample ≤ max * 65535 = grind arith in omega arith

scaled_lt : (max sample : ℕ) → sample < 65535 → 0 < max → max * sample / 65535 < max
scaled_lt max sample h positive =
    let product : max * sample + max ≤ max * 65535 = grind arith in omega arith

scaled_eq :
    (max sample : ℕ)
    → sample ≤ 65535
    → (max * sample / 65535 ≡ max) ↔ ((max ≡ 0) ⊎ (sample ≡ 65535))
scaled_eq zero sample h = (λ e. inl refl, λ e. omega arith)
scaled_eq (suc m) sample h = (to, from)
  where
    to : suc m * sample / 65535 ≡ suc m → (suc m ≡ 0) ⊎ (sample ≡ 65535)
    to e = grind (arith, scaled_lt (suc m) sample)

    from : (suc m ≡ 0) ⊎ (sample ≡ 65535) → suc m * sample / 65535 ≡ suc m
    from (inl e) = absurd (omega arith)
    from (inr e) = rw e (omega arith)

-- A maximum of 0 to 65535 is accepted; the result is then at most `max`, and is `max` itself
-- exactly if the sample is the largest one or `max` is 0.
pub get_random_bounds :
    (max sample : ℕ)
    → max ≤ 65535
    → sample ≤ 65535
    → (r : ℕ) × (get_random (pos max) sample ≡ ok r)
      × (r ≤ max)
      × ((r ≡ max) ↔ ((max ≡ 0) ⊎ (sample ≡ 65535)))
unfolding get_random
get_random_bounds max sample hm hs =
    (max * sample / 65535, ground arith, scaled_le max sample hs, scaled_eq max sample hs)

-- Any other maximum is refused.
pub get_random_refuses :
    (max : ℤ) (sample : ℕ)
    → ((n : ℕ) → max ≡ pos n → 65535 < n)
    → get_random max sample ≡ throw (invalid_max max)
unfolding get_random
get_random_refuses (pos n) sample h = ground (arith, h n refl)
get_random_refuses (negsuc n) sample h = refl
