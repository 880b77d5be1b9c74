-- ===== src/Util.antt =====
-- `util` of EmmaStreamingSolution/src/www/js/lib/simplecrypto.js: conversions between numbers, bytes and text, and the
-- scaled random number.
use Prim.Native.Nat.{bit_and}
pub mod Words
pub mod Text
use crypto_security_projects.Base.{
  ℕ, suc, ◌+◌, ◌-◌, ◌*◌, ◌/◌, ◌%◌, ◌^◌, Option, none, some, Bool, true, false, ◌||◌, List, [], ◌∷◌,
  ◌++◌, map, String, length, get_or, ltb, if◌then◌else◌,
}
use crypto_security_projects.Base.Int.{ℤ, pos, negsuc, ◌+ℤ◌, to_uint32, to_uint8, signed32}
use crypto_security_projects.Js.{
  Attempt, ok, throw, ◌>>=◌, Source, array_buffer, uint8_array, array, undefined, bytes, fresh,
  type_error, invalid_max,
}

-- `x >> 24` on a signed 32-bit number rounds down.
abbrev sar24 : ℤ → ℤ
sar24 (pos n) = pos (n / 2 ^ 24)
sar24 (negsuc n) = negsuc (n / 2 ^ 24)

-- The four stores into `result`. The first three masks keep the number below 2 ^ 31; the last one
-- gives a signed number, which is shifted as such and stored modulo 256.
unfoldable pub uint32_to_buffer : ℤ → List ℕ
uint32_to_buffer value =
    let w = to_uint32 value in
    (bit_and w 0x0000_00ff)
    ∷ (bit_and w 0x0000_ff00 / 2 ^ 8)
    ∷ (bit_and w 0x00ff_0000 / 2 ^ 16)
    ∷ to_uint8 (sar24 (signed32 (bit_and w 0xff00_0000)))
    ∷ []

-- `x << k` on a byte gives a signed 32-bit number.
abbrev shl : ℕ → ℕ → ℤ
shl x k = signed32 (x * 2 ^ k % 2 ^ 32)

-- `none` is NaN: there is no first byte. A missing later byte is `undefined`, which shifts to 0.
unfoldable pub sum_bytes : List ℕ → Option ℤ
sum_bytes [] = none
sum_bytes (b ∷ bs) =
    some (pos b +ℤ shl (get_or bs 0 0) 8 +ℤ shl (get_or bs 1 0) 16 +ℤ shl (get_or bs 2 0) 24)

-- An Array is indexed as it is, with no conversion to bytes.
-- `undefined[0]` throws.
unfoldable pub buffer_to_uint32 : Source → Attempt (Option ℤ)
buffer_to_uint32 (array ns) = ok (sum_bytes ns)
buffer_to_uint32 (array_buffer bs) = ok (sum_bytes bs)
buffer_to_uint32 (uint8_array bs offset len) = ok (sum_bytes (bytes (uint8_array bs offset len)))
buffer_to_uint32 undefined = throw type_error

-- A value with no `length` makes `tmp.set` throw.
unfoldable pub combine_arrays : Source → Source → Attempt Source
combine_arrays undefined in2 = throw type_error
combine_arrays (array_buffer bs) undefined = throw type_error
combine_arrays (uint8_array bs offset len) undefined = throw type_error
combine_arrays (array ns) undefined = throw type_error
combine_arrays in1 in2 = ok (fresh (bytes in1 ++ bytes in2))

-- A string is the list of its UTF-16 code units.
unfoldable pub bytes_to_string : Source → List ℕ
bytes_to_string bs = bytes bs

unfoldable pub string_to_bytes : List ℕ → Source
string_to_bytes units = fresh (map (λ n. n % 256) units)

-- `sample` is the number that `getRandomValues` puts into the Uint16Array. The quotient of the
-- floats is below 2 ^ 16, so rounding does not reach the next whole number.
unfoldable pub get_random : ℤ → ℕ → Attempt ℕ
get_random (negsuc n) sample = throw (invalid_max (negsuc n))
get_random (pos max) sample =
    if ltb 65535 max then throw (invalid_max (pos max)) else ok (max * sample / 65535)
