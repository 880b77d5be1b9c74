-- ===== src/Tests/Asym.antt =====
-- A message of one byte on its way to RSA, in the browser of the tests.
use crypto_security_projects.Base.{ℕ, Bool, ◌≡◌, List, [], ◌∷◌}
use crypto_security_projects.Js.{Source, array_buffer, bytes}
use crypto_security_projects.Runtime.{Run, Failure, emit}
use crypto_security_projects.Internal.Asym.{
  Extended, extend_data, extend_with_keys, extend_data-extend_with_keys,
}
use crypto_security_projects.Tests.Toy.{toy, toy_browser, Shown, failed, handed}

abbrev message : Source
message = array_buffer (5 ∷ [])

abbrev fail : Failure (List ℕ) Shown
fail args = emit (failed args)

abbrev hand : Extended → Bool → Run (List ℕ) Shown
hand extended with_keys = emit (handed (bytes extended.content))

extend_data_example :
    extend_data toy_browser toy message fail hand
    ≡ extend_with_keys toy_browser toy message fail hand
extend_data_example = extend_data-extend_with_keys toy_browser toy message fail hand (λ e. cc)
