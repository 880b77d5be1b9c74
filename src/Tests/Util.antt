-- ===== src/Tests/Util.antt =====
-- `util` on concrete inputs.
use crypto_security_projects.Base.{ℕ, ◌≡◌, ◌≤◌, ◌↔◌, ◌⊎◌, refl, arith, [], ◌∷◌, some}
use crypto_security_projects.Base.Int.{pos, negsuc, ◌+ℤ◌}
use crypto_security_projects.Js.{ok, array_buffer}
use crypto_security_projects.Util.{
  uint32_to_buffer, buffer_to_uint32, sum_bytes, get_random, bytes_to_string, string_to_bytes,
}
use crypto_security_projects.Util.Words.{buffer_to_uint32-uint32_to_buffer, get_random_bounds}
use crypto_security_projects.Util.Text.{bytes_to_string-string_to_bytes}

iterations_bytes : uint32_to_buffer (pos 20000) ≡ 0x20 ∷ 0x4e ∷ 0 ∷ 0 ∷ []
unfolding uint32_to_buffer
iterations_bytes = refl

-- The top bit is read as a sign.
top_bit_is_sign :
    buffer_to_uint32 (array_buffer (0 ∷ 0 ∷ 0 ∷ 128 ∷ [])) ≡ ok (some (negsuc 2147483647))
unfolding buffer_to_uint32 sum_bytes ◌+ℤ◌
top_bit_is_sign = refl

read_back_example :
    buffer_to_uint32 (array_buffer (uint32_to_buffer (pos 4294967295))) ≡ ok (some (negsuc 0))
read_back_example = buffer_to_uint32-uint32_to_buffer (pos 4294967295)

get_random_bounds_example :
    (r : ℕ) × (get_random (pos 4000) 65535 ≡ ok r)
    × (r ≤ 4000)
    × ((r ≡ 4000) ↔ ((◌≡◌ {A = ℕ} 4000 0) ⊎ (◌≡◌ {A = ℕ} 65535 65535)))
get_random_bounds_example = get_random_bounds 4000 65535 (omega arith) (omega arith)

text_example : bytes_to_string (string_to_bytes (104 ∷ 8364 ∷ [])) ≡ 104 ∷ 172 ∷ []
text_example = bytes_to_string-string_to_bytes (104 ∷ 8364 ∷ [])
