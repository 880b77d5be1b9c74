-- ===== src/Asym/Made.antt =====
-- What `asym.encryptAndSign` delivers.
use crypto_security_projects.Base.{
  ℕ, suc, ◌≡◌, ◌≢◌, ◌∙◌, refl, ap, sym, subst, true, List, ◌++◌, length,
}
use crypto_security_projects.Js.{Source, array_buffer, undefined, bytes, fresh}
use crypto_security_projects.Config.{Browser, hmac_options_length}
use crypto_security_projects.Runtime.{Page, resolve, bind, tick}
use crypto_security_projects.Runtime.Delivery.{Delivers}
use crypto_security_projects.WebCrypto.{Crypto, rsa_oaep, rsa_pkcs1}
use crypto_security_projects.WebCrypto.Laws.{Interop, Generation, RsaInterop}
use crypto_security_projects.Internal.Sym.Steps.{call_then}
use crypto_security_projects.Internal.Asym.{Extended, aes_decrypt, verify_signature}
use crypto_security_projects.Internal.Asym as Internal
use crypto_security_projects.Internal.Asym.Extend.{extend_data-Delivers}
use crypto_security_projects.Sym.{Encrypted}
use crypto_security_projects.Sym.Open.{Openable-Sealed}
use crypto_security_projects.Sym.Seal.{Sealed}
use crypto_security_projects.Asym.{Message, encrypt_and_sign}
use crypto_security_projects.Asym.Signed.{signed, combined_fits, Signed}

module _ (browser : Browser) (crypto : Crypto) (laws : Interop crypto (hmac_options_length browser))
    (generation : Generation crypto (hmac_options_length browser)) (rsa : RsaInterop crypto) where
  open crypto use {Key}

  -- What `encryptAndSign` has made: a message whose properties, in any buffers, are such a message.
  pub record SignedMessage (private_key verify_key : Key) (message : Source) (dict : Message)
      : Type 0 where
    pub cipher : List ℕ
    pub of_data : List ℕ
    pub of_encrypted : List ℕ
    pub encrypted : Encrypted
    pub aes : List ℕ
    pub hmac : List ℕ
    pub aes_sized : length aes ≡ 16
    pub hmac_sized : length hmac ≡ 20
    pub sealed : Sealed browser crypto laws encrypted aes hmac (bytes message)
    -- Where the browser has made the three.
    pub cipher_made :
        (t : ℕ) × (key : Key) × (source : Source) × (crypto.encrypt t rsa_oaep key source
          ≡ resolve cipher)
    pub data_made :
        (t : ℕ) × (key : Key) × (source : Source) × (crypto.sign t rsa_pkcs1 key source
          ≡ resolve of_data)
    pub encrypted_made :
        (t : ℕ) × (key : Key) × (source : Source) × (crypto.sign t rsa_pkcs1 key source
          ≡ resolve of_encrypted)
    pub is_signed :
        dict ≡ signed browser crypto laws generation rsa cipher encrypted of_data of_encrypted
    pub decrypts :
        (u : ℕ) (cipher' : Source)
        → bytes cipher' ≡ cipher
        → crypto.decrypt u rsa_oaep private_key cipher' ≡ resolve (bytes (fresh (aes ++ hmac)))
    pub verifies_data :
        (u : ℕ) (signature content : Source)
        → bytes signature ≡ of_data
        → bytes content ≡ bytes (fresh (aes ++ hmac))
        → crypto.verify u rsa_pkcs1 verify_key signature content ≡ resolve true
    pub verifies_encrypted :
        (u : ℕ) (signature cipher' : Source)
        → bytes signature ≡ of_encrypted
        → bytes cipher' ≡ cipher
        → crypto.verify u rsa_pkcs1 verify_key signature cipher' ≡ resolve true

  -- The message as it was made.
  pub SignedMessage-Signed :
      (private_key verify_key : Key) (message : Source) (dict : Message)
      → SignedMessage private_key verify_key message dict
      → Signed browser crypto laws generation rsa private_key verify_key dict (bytes message)
  SignedMessage-Signed private_key verify_key message dict made =
      subst
        (λ (d : Message).
          Signed browser crypto laws generation rsa private_key verify_key d (bytes message))
        (sym made.is_signed)
        (record {
          aes = made.aes;
          hmac = made.hmac;
          aes_sized = made.aes_sized;
          hmac_sized = made.hmac_sized;
          aes_encrypted = made.encrypted.aes_encrypted;
          extended = refl;
          decrypts = λ u. made.decrypts u (array_buffer made.cipher) refl;
          verifies_data = λ u. made.verifies_data u (array_buffer made.of_data) _ refl refl;
          verifies_encrypted = λ u.
              made.verifies_encrypted u (array_buffer made.of_encrypted) (array_buffer made.cipher)
                refl refl;
          openable =
              Openable-Sealed browser crypto laws made.encrypted made.aes made.hmac (bytes message)
                made.sealed;
        })

  pub encrypt_and_sign-SignedMessage :
      {E : Type 0} (public_key private_key sign_key verify_key : Key) (message : Source)
      (p : Page Key E)
      → rsa.IsPair public_key private_key
      → rsa.IsSigner sign_key verify_key
      → message ≢ undefined
      → (dict : Message) × (q : Page Key E) × Delivers
          (encrypt_and_sign browser crypto public_key sign_key message)
          p
          dict
          q
        × SignedMessage private_key verify_key message dict
  unfolding encrypt_and_sign Internal.encrypt Internal.sign
  encrypt_and_sign-SignedMessage {E} public_key private_key sign_key verify_key message p is_pair
        is_signer defined =
      let (aes, hmac, encrypted, q, extends, sealed, aes_sized, hmac_sized) =
        extend_data-Delivers browser crypto laws generation p message defined in
      let content = fresh (aes ++ hmac) in
      let (cipher, encrypts, decrypts) =
        rsa.rsa_inverse q.clock public_key private_key content is_pair (λ s. cc)
          (combined_fits browser crypto laws generation rsa aes hmac aes_sized hmac_sized) in
      let (of_data, signs, verifies) =
        rsa.rsa_verifies (suc q.clock) sign_key verify_key content is_signer (λ s. cc) in
      let (of_encrypted, signs_cipher, verifies_cipher) =
        rsa.rsa_verifies (suc (suc q.clock)) sign_key verify_key (array_buffer cipher) is_signer
          (λ s. cc) in
      (
        signed browser crypto laws generation rsa cipher encrypted of_data of_encrypted,
        tick (tick (tick q)),
        λ e k quiet.
            let run =
              call_then browser crypto _ e _ q encrypts
                (call_then browser crypto _ (bind e "Could not sign raw data") _ (tick q) signs
                  (call_then browser crypto _ (bind e "Could not sign encrypted data") _
                    (tick (tick q)) signs_cipher refl quiet)
                  quiet)
                quiet in
            extends e _ (ap (λ o. o.thrown) run ∙ quiet) ∙ run,
        record {
          cipher = cipher;
          of_data = of_data;
          of_encrypted = of_encrypted;
          encrypted = encrypted;
          aes = aes;
          hmac = hmac;
          aes_sized = aes_sized;
          hmac_sized = hmac_sized;
          sealed = sealed;
          cipher_made = (q.clock, public_key, content, encrypts);
          data_made = (suc q.clock, sign_key, content, signs);
          encrypted_made = (suc (suc q.clock), sign_key, array_buffer cipher, signs_cipher);
          is_signed = refl;
          decrypts = decrypts;
          verifies_data = verifies;
          verifies_encrypted = verifies_cipher;
        },
      )
