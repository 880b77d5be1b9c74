-- ===== src/Asym/Forged.antt =====
-- `asym.verifyAndDecrypt` hands out nothing that the signatures do not vouch for.
use crypto_security_projects.Base.{ℕ, suc, ◌≡◌, refl, true, false, List, [], ◌∷◌}
use crypto_security_projects.Js.{array_buffer}
use crypto_security_projects.Config.{Browser}
use crypto_security_projects.Runtime.{Page, label, resolve, bind, tick}
use crypto_security_projects.Runtime.Delivery.{Rejects}
use crypto_security_projects.WebCrypto.{Crypto, rsa_oaep, rsa_pkcs1}
use crypto_security_projects.Internal.Sym.Steps.{call_then}
use crypto_security_projects.Internal.Asym.{verify_signature}
use crypto_security_projects.Internal.Asym as Internal
use crypto_security_projects.Sym.{property}
use crypto_security_projects.Asym.{Message, verify_and_decrypt}

module _ (browser : Browser) (crypto : Crypto) {E : Type 0} (decrypt_key verify_key : crypto.Key)
    (dict : Message) (p : Page crypto.Key E) where
  open crypto use {Key}

  -- If the signature of the encrypted keys is wrong, `verifyAndDecrypt` asks the browser for nothing
  -- else, in particular for no decryption: it calls `onError` at once, and `onSuccess` never.
  pub forged_encrypted-Rejects :
      crypto.verify p.clock rsa_pkcs1 verify_key
          (property dict.signature_of_encrypted)
          dict.rsa_encrypted
        ≡ resolve false
      → Rejects
          (verify_and_decrypt browser crypto decrypt_key verify_key dict)
          p
          (label "Could not verify encrypted keys" ∷ [])
          (tick p)
  unfolding verify_and_decrypt verify_signature
  forged_encrypted-Rejects forged e k quiet =
      call_then browser crypto _ (bind e "Could not verify encrypted keys") _ p forged refl quiet

  -- If the signature of the decrypted keys is wrong, `verifyAndDecrypt` does not use these keys: after
  -- the first verification, the decryption and the second verification it calls `onError`, and
  -- `onSuccess` never.
  pub forged_keys-Rejects :
      (decrypted : List ℕ)
      → crypto.verify p.clock rsa_pkcs1 verify_key
          (property dict.signature_of_encrypted)
          dict.rsa_encrypted
        ≡ resolve true
      → crypto.decrypt (suc p.clock) rsa_oaep decrypt_key dict.rsa_encrypted ≡ resolve decrypted
      → crypto.verify
          (suc (suc p.clock))
          rsa_pkcs1
          verify_key
          (property dict.signature_of_data)
          (array_buffer decrypted)
        ≡ resolve false
      → Rejects
          (verify_and_decrypt browser crypto decrypt_key verify_key dict)
          p
          (label "Could not verify keys" ∷ [])
          (tick (tick (tick p)))
  unfolding verify_and_decrypt verify_signature Internal.decrypt
  forged_keys-Rejects decrypted verified decrypts forged e k quiet =
      call_then browser crypto _ (bind e "Could not verify encrypted keys") _ p verified
        (call_then browser crypto _ (bind e "Could not decrypt keys") _ (tick p) decrypts
          (call_then browser crypto _ (bind e "Could not verify keys") _ (tick (tick p)) forged refl
            quiet)
          quiet)
        quiet
