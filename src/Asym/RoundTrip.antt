-- ===== src/Asym/RoundTrip.antt =====
-- What `asym.encrypt` and `asym.encryptAndSign` seal, `asym.decrypt` and `asym.verifyAndDecrypt` open.
use crypto_security_projects.Base.{◌≢◌, ◌∙◌, refl, ap, ◌++◌}
use crypto_security_projects.Js.{Source, array_buffer, undefined, bytes, fresh}
use crypto_security_projects.Config.{Browser, hmac_options_length}
use crypto_security_projects.Runtime.{Page, bind, tick}
use crypto_security_projects.Runtime.Delivery.{Delivers}
use crypto_security_projects.WebCrypto.{Crypto}
use crypto_security_projects.WebCrypto.Laws.{Interop, Generation, RsaInterop}
use crypto_security_projects.Internal.Sym.Steps.{call_then}
use crypto_security_projects.Internal.Asym.{Extended, aes_decrypt, verify_signature}
use crypto_security_projects.Internal.Asym as Internal
use crypto_security_projects.Internal.Asym.Extend.{extend_data-Delivers}
use crypto_security_projects.Sym.Open.{Openable-Sealed}
use crypto_security_projects.Asym.Signed.{
  unsigned, combined_fits, open_combined, verify_and_decrypt-Signed,
}
use crypto_security_projects.Asym.Made.{encrypt_and_sign-SignedMessage, SignedMessage-Signed}
use crypto_security_projects.Asym.{Message, encrypt, decrypt, encrypt_and_sign, verify_and_decrypt}

module _ (browser : Browser) (crypto : Crypto) (laws : Interop crypto (hmac_options_length browser))
    (generation : Generation crypto (hmac_options_length browser)) (rsa : RsaInterop crypto) where
  open crypto use {Key}

  -- With a pair of RSA keys, `encrypt` hands an encrypted message to `onSuccess`, for a message that
  -- is there and of whatever length. `decrypt` with the private key then hands the bytes of the
  -- message to its own `onSuccess`, on whatever page it is called.
  pub rsa_decrypt-encrypt :
      {E : Type 0} (public_key private_key : Key) (message : Source) (p : Page Key E)
      → rsa.IsPair public_key private_key
      → message ≢ undefined
      → (dict : Message) × (q : Page Key E) × Delivers
          (encrypt browser crypto public_key message)
          p
          dict
          q
        × ((r : Page Key E)
            → (s : Page Key E) × Delivers
                (decrypt browser crypto private_key dict)
                r
                (bytes message)
                s)
  unfolding encrypt decrypt Internal.encrypt Internal.decrypt
  rsa_decrypt-encrypt {E} public_key private_key message p is_pair defined =
      let (aes, hmac, encrypted, q, extends, sealed, aes_sized, hmac_sized) =
        extend_data-Delivers browser crypto laws generation p message defined in
      let (cipher, encrypts, decrypts) =
        rsa.rsa_inverse q.clock public_key private_key (fresh (aes ++ hmac)) is_pair (λ s. cc)
          (combined_fits browser crypto laws generation rsa aes hmac aes_sized hmac_sized) in
      (
        unsigned browser crypto laws generation rsa cipher encrypted,
        tick q,
        λ e k quiet.
            let run = call_then browser crypto _ e _ q encrypts refl quiet in
            extends e _ (ap (λ o. o.thrown) run ∙ quiet) ∙ run,
        λ r.
            let (s, opens) =
              open_combined browser crypto laws generation rsa (tick r) aes hmac (bytes message)
                encrypted aes_sized hmac_sized
                (Openable-Sealed browser crypto laws encrypted aes hmac (bytes message) sealed) in
            (
              s,
              λ e k quiet.
                  call_then browser crypto _ (bind e "Could not decrypt keys") _ r
                    (decrypts r.clock (array_buffer cipher) refl) (opens e k quiet) quiet,
            ),
      )

  -- With a pair of RSA keys for encryption and one for signatures, `encryptAndSign` hands a signed
  -- message to `onSuccess`, for a message that is there and of whatever length. `verifyAndDecrypt`
  -- with the other two keys then hands the bytes of the message to its own `onSuccess`, on whatever
  -- page it is called.
  pub verify_and_decrypt-encrypt_and_sign :
      {E : Type 0} (public_key private_key sign_key verify_key : Key) (message : Source)
      (p : Page Key E)
      → rsa.IsPair public_key private_key
      → rsa.IsSigner sign_key verify_key
      → message ≢ undefined
      → (dict : Message) × (q : Page Key E) × Delivers
          (encrypt_and_sign browser crypto public_key sign_key message)
          p
          dict
          q
        × ((r : Page Key E)
            → (s : Page Key E) × Delivers
                (verify_and_decrypt browser crypto private_key verify_key dict)
                r
                (bytes message)
                s)
  verify_and_decrypt-encrypt_and_sign public_key private_key sign_key verify_key message p is_pair
        is_signer defined =
      let (dict, q, delivers, made) =
        encrypt_and_sign-SignedMessage browser crypto laws generation rsa public_key private_key
          sign_key verify_key message p is_pair is_signer defined in
      (
        dict,
        q,
        delivers,
        λ r.
            verify_and_decrypt-Signed browser crypto laws generation rsa private_key verify_key dict
              (bytes message) r
              (SignedMessage-Signed browser crypto laws generation rsa private_key verify_key
                message dict made),
      )
