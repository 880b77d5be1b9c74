-- ===== src/Asym/Keys.antt =====
-- The RSA keys of `simpleCrypto.asym`: generation and import.
pub mod Settling
use crypto_security_projects.Base.{ℕ, List, [], ◌∷◌}
use crypto_security_projects.Config.{Browser}
use crypto_security_projects.Runtime.{Run, Failure, bind}
use crypto_security_projects.WebCrypto.{Crypto, Json, KeyData, Usage}
use crypto_security_projects.Internal.Asym.Jwk as Internal

-- `{privateKey, publicKey, privateJwk, publicJwk}`
pub record RsaKeys (K : Type 0) : Type 0 where
  pub private_key : K
  pub public_key : K
  pub private_jwk : KeyData
  pub public_jwk : KeyData

-- `{encrypt, sign}`
pub record Generated (K : Type 0) : Type 0 where
  pub encrypt : RsaKeys K
  pub sign : RsaKeys K

module _ (browser : Browser) (json : Json) (crypto : Crypto) {E : Type 0} where
  open crypto use {Key}

  unfoldable pub import_encrypt_private_key :
      KeyData → Failure Key E → (Key → Run Key E) → Run Key E
  import_encrypt_private_key private_jwk on_error on_success =
      Internal.import_encrypt_key browser json crypto private_jwk (Usage.decrypt ∷ [])
        (bind on_error "decrypt key") on_success

  unfoldable pub import_encrypt_public_key : KeyData → Failure Key E → (Key → Run Key E) → Run Key E
  import_encrypt_public_key public_jwk on_error on_success =
      Internal.import_encrypt_key browser json crypto public_jwk (Usage.encrypt ∷ [])
        (bind on_error "encrypt key") on_success

  -- The private key is imported first.
  unfoldable pub import_encrypt_key :
      KeyData → KeyData → Failure Key E → (RsaKeys Key → Run Key E) → Run Key E
  import_encrypt_key public_jwk private_jwk on_error on_success =
      Internal.import_encrypt_key browser json crypto private_jwk (Usage.decrypt ∷ [])
        (bind on_error "decrypt key")
        λ private_key.
          Internal.import_encrypt_key browser json crypto public_jwk (Usage.encrypt ∷ [])
            (bind on_error "encrypt key")
            λ public_key. on_success (record {
              private_key = private_key;
              public_key = public_key;
              private_jwk = private_jwk;
              public_jwk = public_jwk;
            })

  -- The private key that is handed out is an import of the exported one, which is not extractable.
  unfoldable pub generate_encrypt_key : Failure Key E → (RsaKeys Key → Run Key E) → Run Key E
  generate_encrypt_key on_error on_success =
      Internal.generate_encrypt_keys browser json crypto
        (bind on_error "Could not generate encrypt key")
        λ keys.
          Internal.export_key browser json crypto keys.public_key (Usage.encrypt ∷ [])
            (bind on_error "Could not export public encrypt key")
            λ public_jwk.
              Internal.export_key browser json crypto keys.private_key (Usage.decrypt ∷ [])
                (bind on_error "Could not export private encrypt key")
                λ private_jwk.
                  Internal.import_encrypt_key browser json crypto private_jwk (Usage.decrypt ∷ [])
                    (bind on_error "Could not import private encrypt key")
                    λ private_key. on_success (record {
                      private_key = private_key;
                      public_key = keys.public_key;
                      private_jwk = private_jwk;
                      public_jwk = public_jwk;
                    })

  unfoldable pub generate_sign_key : Failure Key E → (RsaKeys Key → Run Key E) → Run Key E
  generate_sign_key on_error on_success =
      Internal.generate_sign_keys browser json crypto (bind on_error "Could not generate sign key")
        λ keys.
          Internal.export_key browser json crypto keys.public_key (Usage.verify ∷ [])
            (bind on_error "Could not export public sign key")
            λ public_jwk.
              Internal.export_key browser json crypto keys.private_key (Usage.sign ∷ [])
                (bind on_error "Could not export private sign key")
                λ private_jwk.
                  Internal.import_sign_key browser json crypto private_jwk (Usage.sign ∷ [])
                    (bind on_error "Could not import private sign key")
                    λ private_key. on_success (record {
                      private_key = private_key;
                      public_key = keys.public_key;
                      private_jwk = private_jwk;
                      public_jwk = public_jwk;
                    })

  unfoldable pub generate_keys : Failure Key E → (Generated Key → Run Key E) → Run Key E
  generate_keys on_error on_success = generate_encrypt_key on_error λ encrypt_key.
      generate_sign_key on_error
        λ sign_key. on_success (record { encrypt = encrypt_key; sign = sign_key })
