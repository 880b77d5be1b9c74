-- ===== src/Util/Text.antt =====
-- `util.bytesToString`, `util.stringToBytes` and `util.combineArrays`.
use crypto_security_projects.Base.{
  ℕ, ◌%◌, ◌<◌, ◌≡◌, ◌≢◌, ◌∙◌, refl, arith, List, [], ◌∷◌, All, take-length, ◌++◌, map,
}
use crypto_security_projects.Js.{
  ok, Source, undefined, uint8_array, array_buffer, array, bytes, fresh,
}
use crypto_security_projects.Util.{bytes_to_string, string_to_bytes, combine_arrays}

map-mod : (ns : List ℕ) → All (λ n. n < 256) ns → map (λ n. n % 256) ns ≡ ns
map-mod [] h = refl
map-mod (n ∷ ns) h = ground (arith, map-mod ns h.1)

-- Reading back a text gives each code unit modulo 256.
pub bytes_to_string-string_to_bytes :
    (units : List ℕ) → bytes_to_string (string_to_bytes units) ≡ map (λ n. n % 256) units
unfolding bytes_to_string string_to_bytes
bytes_to_string-string_to_bytes units = take-length (map (λ n. n % 256) units)

-- A text of code units below 256 is read back as it was.
pub bytes_to_string-latin1 :
    (units : List ℕ) → All (λ n. n < 256) units → bytes_to_string (string_to_bytes units) ≡ units
bytes_to_string-latin1 units h = bytes_to_string-string_to_bytes units ∙ map-mod units h

-- The result holds the bytes of both arguments, in a buffer of its own that holds nothing else.
pub bytes-combine_arrays :
    (a b : Source)
    → a ≢ undefined
    → b ≢ undefined
    → combine_arrays a b ≡ ok (fresh (bytes a ++ bytes b))
unfolding combine_arrays
bytes-combine_arrays undefined b h k = absurd (h refl)
bytes-combine_arrays (array_buffer bs) undefined h k = absurd (k refl)
bytes-combine_arrays (array_buffer bs) (array_buffer cs) h k = refl
bytes-combine_arrays (array_buffer bs) (uint8_array cs o l) h k = refl
bytes-combine_arrays (array_buffer bs) (array ns) h k = refl
bytes-combine_arrays (uint8_array bs o l) undefined h k = absurd (k refl)
bytes-combine_arrays (uint8_array bs o l) (array_buffer cs) h k = refl
bytes-combine_arrays (uint8_array bs o l) (uint8_array cs p m) h k = refl
bytes-combine_arrays (uint8_array bs o l) (array ns) h k = refl
bytes-combine_arrays (array ms) undefined h k = absurd (k refl)
bytes-combine_arrays (array ms) (array_buffer cs) h k = refl
bytes-combine_arrays (array ms) (uint8_array cs p m) h k = refl
bytes-combine_arrays (array ms) (array ns) h k = refl
