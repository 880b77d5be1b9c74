-- ===== src/Tests/Sym.antt =====
-- Symmetric encryption in the browser of the tests.
use crypto_security_projects.Base.{ℕ, ◌≡◌, refl, false, List, [], ◌∷◌}
use crypto_security_projects.Js.{Source, bytes, array_buffer}
use crypto_security_projects.Runtime.{
  Page, Run, Failure, resolve, event, emit, wrap, catching, detached, ask, load, save,
}
use crypto_security_projects.Runtime.Delivery.{Delivers, Rejects}
use crypto_security_projects.Runtime.Settling.{Settles, emit-Answers, Answers-Settles}
use crypto_security_projects.WebCrypto.{hmac_length}
use crypto_security_projects.Internal.Sym as Internal
use crypto_security_projects.Internal.Sym as Internal
use crypto_security_projects.Sym.{
  Encrypted, encrypt, decrypt, gen_keys_and_encrypt, import_keys, import_raw_keys,
}
use crypto_security_projects.Sym.Open.{Ready, Decrypts}
use crypto_security_projects.Sym.RoundTrip.{decrypt-encrypt}
use crypto_security_projects.Sym.Authenticity.{invalid_hmac, decrypt-Rejects}
use crypto_security_projects.Sym.Settling as Settling
use crypto_security_projects.Sym.Keeping.{encrypt-Keeps, decrypt-Keeps}
use crypto_security_projects.Runtime.Keeping.{Keeps, emit-Keeps}
use crypto_security_projects.Tests.Toy.{
  toy, toy_browser, toy_laws, aes_raw, hmac_raw, start, Shown, failed, handed,
}

abbrev fail : Failure (List ℕ) Shown
fail args = emit (failed args)

abbrev hand : List ℕ → Run (List ℕ) Shown
hand bs = emit (handed bs)

abbrev message : Source
message = array_buffer (1 ∷ 2 ∷ 3 ∷ [])

ready : Ready toy_browser toy toy_laws 0 start aes_raw hmac_raw
ready =
    (record { aes_key = refl; hmac_key = refl; aes_sized = refl; hmac_sized = refl }, λ a h e. cc)

decrypt-encrypt_example :
    (encrypted : Encrypted) × (q : Page (List ℕ) Shown) × Delivers
      (encrypt toy_browser toy 0 message)
      start
      encrypted
      q
    × ((keys' : ℕ) (r : Page (List ℕ) Shown)
        → Ready toy_browser toy toy_laws keys' r aes_raw hmac_raw
        → Decrypts toy_browser toy toy_laws keys' r encrypted (bytes message))
decrypt-encrypt_example =
    decrypt-encrypt toy_browser toy toy_laws 0 start aes_raw hmac_raw message ready (λ iv e. cc)
      (λ e. cc)

abbrev forged : Encrypted
forged = record { aes_encrypted = message; hmac = array_buffer [] }

refused :
    (u : ℕ) (key : List ℕ)
    → key ≡ bytes hmac_raw
    → toy.verify u (hmac_length 160) key forged.hmac forged.aes_encrypted ≡ resolve false
refused u key e = rw e

decrypt-Rejects_example :
    (q : Page (List ℕ) Shown) × Rejects (decrypt toy_browser toy 0 forged) start invalid_hmac q
decrypt-Rejects_example =
    decrypt-Rejects toy_browser toy toy_laws 0 start aes_raw hmac_raw forged ready refused

decrypt-Settles_example : Settles (decrypt toy_browser toy 0 forged fail hand)
decrypt-Settles_example =
    Settling.decrypt-Settles toy_browser refl toy 0 forged fail hand
      (λ args. emit-Answers (failed args))
      (λ bs. Answers-Settles (hand bs) (emit-Answers (handed bs)))

-- The success callback of `genKeysAndEncrypt` here shows the ciphertext.
abbrev hand_sealed : ℕ → Encrypted → Run (List ℕ) Shown
hand_sealed keys encrypted = emit (handed (bytes encrypted.aes_encrypted))

gen_keys_and_encrypt-Settles_example :
    Settles (gen_keys_and_encrypt toy_browser toy message fail hand_sealed)
gen_keys_and_encrypt-Settles_example =
    Settling.gen_keys_and_encrypt-Settles toy_browser refl toy message fail hand_sealed
      (λ args. emit-Answers (failed args))
      (λ keys a.
        Answers-Settles (hand_sealed keys a) (emit-Answers (handed (bytes a.aes_encrypted))))

-- A page on which nothing was cached runs through both imports.
forged_run :
    (decrypt toy_browser toy 0 forged fail hand start).page.reports
    ≡ event (failed invalid_hmac) ∷ []
unfolding decrypt import_keys import_raw_keys load save Internal.import_key_aes
    Internal.import_key_hmac Internal.verify_hmac Internal.call ask wrap catching detached
forged_run = refl

abbrev hand_encrypted : Encrypted → Run (List ℕ) Shown
hand_encrypted encrypted = emit (handed (bytes encrypted.aes_encrypted))

encrypt-Keeps_example : Keeps (encrypt toy_browser toy 0 message fail hand_encrypted)
encrypt-Keeps_example =
    encrypt-Keeps toy_browser toy 0 message fail hand_encrypted (λ args. emit-Keeps (failed args))
      (λ encrypted. emit-Keeps (handed (bytes encrypted.aes_encrypted)))

decrypt-Keeps_example : Keeps (decrypt toy_browser toy 0 forged fail hand)
decrypt-Keeps_example =
    decrypt-Keeps toy_browser toy 0 forged fail hand (λ args. emit-Keeps (failed args))
      (λ bs. emit-Keeps (handed bs))
