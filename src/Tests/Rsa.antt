-- ===== src/Tests/Rsa.antt =====
-- RSA keys and messages in the browser of the tests.
use crypto_security_projects.Base.{
  ℕ, ◌≡◌, ◌++◌, refl, ap, true, List, [], ◌∷◌, none, some, replicate, if◌then◌else◌,
  length-replicate, str_eq, length,
}
use crypto_security_projects.Js.{Source, array_buffer, bytes, ok}
use crypto_security_projects.Js.Objects.{lookup, differ}
use crypto_security_projects.Runtime.{Page, Run, Failure, label, number, resolve, emit, tick}
use crypto_security_projects.Runtime.Delivery.{Delivers, Rejects}
use crypto_security_projects.Runtime.Settling.{Settles, emit-Answers, Answers-Settles}
use crypto_security_projects.WebCrypto.{Json, Jwk, text, flag}
use crypto_security_projects.WebCrypto.Laws.{Generation, RsaInterop}
use crypto_security_projects.Internal.Asym.{aes_decrypt}
use crypto_security_projects.Internal.Asym.Open.{aes_decrypt-wrong_size}
use crypto_security_projects.Internal.Asym.Jwk.{to_old_jwk, from_old_jwk}
use crypto_security_projects.Internal.Asym.Jwk.Members.{to_old_jwk-from_old_jwk}
use crypto_security_projects.Sym.{Encrypted, gen_keys_and_encrypt}
use crypto_security_projects.Sym.Open.{Ready, Decrypts}
use crypto_security_projects.Sym.Fresh.{decrypt-gen_keys_and_encrypt}
use crypto_security_projects.Asym.{Message, encrypt, decrypt, encrypt_and_sign, verify_and_decrypt}
use crypto_security_projects.Asym.RoundTrip.{
  rsa_decrypt-encrypt, verify_and_decrypt-encrypt_and_sign,
}
use crypto_security_projects.Asym.Forged.{forged_encrypted-Rejects, forged_keys-Rejects}
use crypto_security_projects.Asym.Settling.{encrypt_and_sign-Settles, verify_and_decrypt-Settles}
use crypto_security_projects.Asym.Keys.{Generated, generate_keys}
use crypto_security_projects.Asym.Keys.Settling.{asym_generate_keys-Settles}
use crypto_security_projects.Tests.Toy.{
  toy, toy_browser, toy_laws, same_bytes_refl, same_bytes, Shown, failed, handed, start,
}

abbrev toy_generation : Generation toy 160
toy_generation = record {
  generate_aes = λ t. (replicate 16 t, refl, λ u. (replicate 16 t, refl, length-replicate 16 t));
  generate_hmac = λ t. (replicate 20 t, refl, λ u. (replicate 20 t, refl, length-replicate 20 t));
}

toy_rsa_verifies :
    (key public message signature message' : List ℕ)
    → key ≡ public
    → signature ≡ key ++ message
    → message' ≡ message
    → same_bytes signature (public ++ message') ≡ true
toy_rsa_verifies key public message signature message' k s m =
    rw (s, m, k) (same_bytes_refl (public ++ message))

abbrev toy_rsa : RsaInterop toy
toy_rsa = record {
  IsPair = λ public private. public ≡ private;
  IsSigner = λ private public. private ≡ public;
  rsa_inverse = λ t public private message is_pair defined fits.
      (bytes message, refl, λ u cipher same. ap resolve same);
  rsa_verifies = λ t private public message is_signer defined. (
    private ++ bytes message,
    refl,
    λ u signature message' same same_message. ap resolve (
        toy_rsa_verifies private public (bytes message) (bytes signature) (bytes message') is_signer
          same same_message),
  );
}

abbrev key : List ℕ
key = 1 ∷ []

abbrev message : Source
message = array_buffer (5 ∷ 6 ∷ [])

rsa_decrypt-encrypt_example :
    (dict : Message) × (q : Page (List ℕ) Shown) × Delivers
      (encrypt toy_browser toy key message)
      start
      dict
      q
    × ((r : Page (List ℕ) Shown)
        → (s : Page (List ℕ) Shown) × Delivers
            (decrypt toy_browser toy key dict)
            r
            (bytes message)
            s)
rsa_decrypt-encrypt_example =
    rsa_decrypt-encrypt toy_browser toy toy_laws toy_generation toy_rsa key key message start refl
      (λ e. cc)

verify_and_decrypt-encrypt_and_sign_example :
    (dict : Message) × (q : Page (List ℕ) Shown) × Delivers
      (encrypt_and_sign toy_browser toy key key message)
      start
      dict
      q
    × ((r : Page (List ℕ) Shown)
        → (s : Page (List ℕ) Shown) × Delivers
            (verify_and_decrypt toy_browser toy key key dict)
            r
            (bytes message)
            s)
verify_and_decrypt-encrypt_and_sign_example =
    verify_and_decrypt-encrypt_and_sign toy_browser toy toy_laws toy_generation toy_rsa key key key
      key message start refl refl (λ e. cc)

abbrev dict : Message
dict = record {
  rsa_encrypted = message;
  aes_encrypted = none;
  hmac = none;
  signature_of_data = none;
  signature_of_encrypted = some (array_buffer (1 ∷ 5 ∷ 6 ∷ []));
}

abbrev unsigned_dict : Message
unsigned_dict = record dict { signature_of_encrypted = none }

forged_encrypted-Rejects_example :
    Rejects
      (verify_and_decrypt toy_browser toy key key unsigned_dict)
      start
      (label "Could not verify encrypted keys" ∷ [])
      (tick start)
forged_encrypted-Rejects_example =
    forged_encrypted-Rejects toy_browser toy key key unsigned_dict start refl

forged_keys-Rejects_example :
    Rejects
      (verify_and_decrypt toy_browser toy key key dict)
      start
      (label "Could not verify keys" ∷ [])
      (tick (tick (tick start)))
forged_keys-Rejects_example =
    forged_keys-Rejects toy_browser toy key key dict start (5 ∷ 6 ∷ []) refl refl refl

abbrev fail : Failure (List ℕ) Shown
fail args = emit (failed args)

abbrev hand : List ℕ → Run (List ℕ) Shown
hand bs = emit (handed bs)

abbrev hand_message : Message → Run (List ℕ) Shown
hand_message m = emit (handed (bytes m.rsa_encrypted))

abbrev hand_keys : Generated (List ℕ) → Run (List ℕ) Shown
hand_keys keys = emit (handed [])

abbrev sealed : Encrypted
sealed = record { aes_encrypted = message; hmac = message }

aes_decrypt-wrong_size_example :
    aes_decrypt toy_browser toy message sealed fail hand
    ≡ fail (label "Combined keys size is incorrect" ∷ number 2 ∷ number 16 ∷ number 20 ∷ [])
aes_decrypt-wrong_size_example =
    aes_decrypt-wrong_size toy_browser toy message sealed fail hand tt (λ e. cc)

encrypt_and_sign-Settles_example :
    Settles (encrypt_and_sign toy_browser toy key key message fail hand_message)
encrypt_and_sign-Settles_example =
    encrypt_and_sign-Settles toy_browser refl toy key key message fail hand_message
      (λ args. emit-Answers (failed args))
      (λ m. Answers-Settles (hand_message m) (emit-Answers (handed (bytes m.rsa_encrypted))))

verify_and_decrypt-Settles_example :
    Settles (verify_and_decrypt toy_browser toy key key dict fail hand)
verify_and_decrypt-Settles_example =
    verify_and_decrypt-Settles toy_browser refl toy key key dict fail hand
      (λ args. emit-Answers (failed args))
      (λ bs. Answers-Settles (hand bs) (emit-Answers (handed bs)))

-- JSON for keys without members.
abbrev toy_json : Json
toy_json = record { stringify = λ jwk. []; parse = λ units. ok [] }

asym_generate_keys-Settles_example : Settles (generate_keys toy_browser toy_json toy fail hand_keys)
asym_generate_keys-Settles_example =
    asym_generate_keys-Settles toy_browser refl toy_json (λ units e. cc) toy fail hand_keys
      (λ args. emit-Answers (failed args))
      (λ keys. Answers-Settles (hand_keys keys) (emit-Answers (handed [])))

abbrev jwk : Jwk
jwk = ("kty", text "RSA") ∷ ("extractable", flag true) ∷ []

to_old_jwk-from_old_jwk_example :
    lookup "kty" (to_old_jwk (from_old_jwk [] "RSA-OAEP" jwk))
    ≡ (if str_eq "key_ops" "kty" then none else lookup "kty" jwk)
unfolding lookup
to_old_jwk-from_old_jwk_example =
    to_old_jwk-from_old_jwk [] "RSA-OAEP" "kty" jwk refl (differ "alg" "kty" refl)

decrypt-gen_keys_and_encrypt_example :
    (keys : ℕ) × (encrypted : Encrypted) × (q : Page (List ℕ) Shown) × (aes : List ℕ) × (hmac : List
      ℕ)
    × Delivers {A = ℕ × Encrypted}
        (λ e k. gen_keys_and_encrypt toy_browser toy message e (λ made sealed. k (made, sealed)))
        start
        (keys, encrypted)
        q
    × (length aes ≡ 16)
    × (length hmac ≡ 20)
    × Ready toy_browser toy toy_laws keys q (array_buffer aes) (array_buffer hmac)
    × Decrypts toy_browser toy toy_laws keys q encrypted (bytes message)
    × ((keys' : ℕ) (r : Page (List ℕ) Shown)
        → Ready toy_browser toy toy_laws keys' r (array_buffer aes) (array_buffer hmac)
        → Decrypts toy_browser toy toy_laws keys' r encrypted (bytes message))
decrypt-gen_keys_and_encrypt_example =
    decrypt-gen_keys_and_encrypt toy_browser toy toy_laws toy_generation start message (λ e. cc)
