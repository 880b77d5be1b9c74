-- ===== src/Tests/Derivation.antt =====
-- PBKDF2 in a browser of the tests that has both HMAC and PBKDF2.
use crypto_security_projects.Base.{
  ℕ, ◌*◌, ◌/◌, ◌≡◌, refl, ap, arith, List, [], ◌∷◌, ◌++◌, some, inr, take, replicate, length,
  length-take, length-append, length-replicate,
}
use crypto_security_projects.Base.Int.{pos}
use crypto_security_projects.Js.{Source, bytes, array_buffer, type_error}
use crypto_security_projects.Runtime.{Run, Failure, Settled, resolve, reject, emit}
use crypto_security_projects.Runtime.Settling.{Settles, emit-Answers, Answers-Settles}
use crypto_security_projects.WebCrypto.{Crypto, Algorithm, pbkdf2_bits}
use crypto_security_projects.Internal.Pbkdf2.{
  Options, Derived, number, compat_derive, given_iterations,
}
use crypto_security_projects.Internal.Pbkdf2.Standard.{derived_key}
use crypto_security_projects.Internal.Pbkdf2.Settling.{HasBytes, compat_derive-Settles}
use crypto_security_projects.Tests.Toy.{toy, toy_browser, Shown, failed, handed}

-- 20 bytes of the key and the message.
abbrev mix : List ℕ → List ℕ → List ℕ
mix key message = take 20 (key ++ message ++ replicate 20 0)

length-mix : (key message : List ℕ) → length (mix key message) ≡ 20
length-mix key message = omega (
  arith,
  length-take 20 (key ++ message ++ replicate 20 0),
  length-append (key ++ message) (replicate 20 0),
  length-append key message,
  length-replicate {A = ℕ} 20 0,
)

abbrev native_bits : Algorithm → List ℕ → ℕ → Settled (List ℕ)
native_bits (pbkdf2_bits salt (some (pos c))) key bits =
    resolve (derived_key (mix key) (bytes salt) c (bits / 8))
native_bits _ key bits = reject type_error

abbrev with_pbkdf2 : Crypto
with_pbkdf2 = record toy {
  sign = λ t algorithm key message. resolve (mix key (bytes message));
  derive_bits = λ t algorithm key bits. native_bits algorithm key bits;
}

abbrev password : List ℕ
password = 104 ∷ 117 ∷ 110 ∷ []

abbrev salt : Source
salt = array_buffer (1 ∷ 2 ∷ [])

abbrev options : Options
options = record { salt = some salt; iterations = number 3 }

abbrev fail : Failure (List ℕ) Shown
fail args = emit (failed args)

abbrev hand : Derived → Run (List ℕ) Shown
hand derived = emit (handed derived.derived)

abbrev settled_length : Settled (List ℕ) → ℕ
settled_length (resolve bs) = length bs
settled_length _ = 0

mix-HasBytes : HasBytes with_pbkdf2
mix-HasBytes t key message code resolved =
    omega (arith, length-mix key (bytes message), ap settled_length resolved)

compat_derive-Settles_example :
    Settles (compat_derive toy_browser with_pbkdf2 password (36 * 8) options fail hand)
unfolding given_iterations
compat_derive-Settles_example =
    compat_derive-Settles toy_browser refl with_pbkdf2 mix-HasBytes password (36 * 8) options fail
      hand (inr (2, refl)) (λ args. emit-Answers (failed args))
      (λ derived. Answers-Settles (hand derived) (emit-Answers (handed derived.derived)))
