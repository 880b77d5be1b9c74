-- ===== src/Internal/Asym/Combined.antt =====
-- The combined keys of `extendData` and `aesDecrypt`.
use crypto_security_projects.Base.{
  ℕ, ◌-◌, ◌≡◌, ◌∙◌, ap, sym, arith, List, ◌++◌, length, length-append, take, drop, take-append,
  drop-append, take-length,
}
use crypto_security_projects.Js.{Source, array_buffer, uint8_array, bytes, ok, sub_view}
use crypto_security_projects.Config.{Browser}
use crypto_security_projects.Internal.Asym.{parts, split_combined}

-- Either browser has an AES key of 16 bytes and an HMAC key of 20.
pub split_combined-append :
    (browser : Browser) (aes hmac : List ℕ)
    → length aes ≡ 16
    → length hmac ≡ 20
    → (aes' : Source) × (hmac' : Source) × (split_combined browser (array_buffer (aes ++ hmac))
        ≡ ok (parts aes' hmac'))
      × (bytes aes' ≡ aes)
      × (bytes hmac' ≡ hmac)
unfolding split_combined sub_view
split_combined-append browser aes hmac h k = (
  uint8_array (aes ++ hmac) 0 16,
  uint8_array (aes ++ hmac) 16 (length (aes ++ hmac) - 16),
  ground (arith, length-append aes hmac),
  ap (λ (n : ℕ). take n (aes ++ hmac)) (sym h) ∙ take-append aes hmac,
  ap (λ (bs : List ℕ). take (length (aes ++ hmac) - 16) bs) rest
      ∙ ap (λ (n : ℕ). take n hmac) remaining
      ∙ take-length hmac,
)
  where
    rest : drop 16 (aes ++ hmac) ≡ hmac
    rest = ap (λ (n : ℕ). drop n (aes ++ hmac)) (sym h) ∙ drop-append aes hmac

    remaining : length (aes ++ hmac) - 16 ≡ length hmac
    remaining = omega (arith, length-append aes hmac)
