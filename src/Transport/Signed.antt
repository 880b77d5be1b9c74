-- ===== src/Transport/Signed.antt =====
-- A message that `asym.encryptAndSign` has sealed and signed, on its way through `pack`.
use crypto_security_projects.Base.{
  ℕ, ◌^◌, ◌<◌, ◌≡◌, ◌≢◌, ◌∙◌, refl, ap, sym, subst, List, length, All,
}
use crypto_security_projects.Js.{ok, Source, array_buffer, undefined, bytes}
use crypto_security_projects.Js.Objects.{lookup, differ}
use crypto_security_projects.Config.{Browser, hmac_options_length}
use crypto_security_projects.Runtime.{Page, resolve}
use crypto_security_projects.Runtime.Delivery.{Delivers}
use crypto_security_projects.WebCrypto.{Crypto, rsa_oaep, rsa_pkcs1}
use crypto_security_projects.WebCrypto.Laws.{Interop, Generation, RsaInterop}
use crypto_security_projects.Pack.{Dict, encode, decode, find_index}
use crypto_security_projects.Pack.RoundTrip.{IsField, Distinct}
use crypto_security_projects.Sym.{Encrypted}
use crypto_security_projects.Sym.Open.{Sealed-Openable}
use crypto_security_projects.Asym.{Message, encrypt_and_sign, verify_and_decrypt}
use crypto_security_projects.Asym.Signed.{signed, Signed, verify_and_decrypt-Signed}
use crypto_security_projects.Asym.Made.{SignedMessage, encrypt_and_sign-SignedMessage}
use crypto_security_projects.Transport.{dict_of_message, message_of_dict}
use crypto_security_projects.Transport.Fields.{Carries, field, transport_lem}
use crypto_security_projects.Transport.Sealed.{Short, Sealed-buffers}

-- The ciphertexts and signatures of RSA fit four size bytes.
pub record ShortRsa (crypto : Crypto) : Type 0 where
  pub cipher_short :
      (t : ℕ) (key : crypto.Key) (source : Source) (cipher : List ℕ)
      → crypto.encrypt t rsa_oaep key source ≡ resolve cipher
      → length cipher < 2 ^ 32
  pub signature_short :
      (t : ℕ) (key : crypto.Key) (source : Source) (signature : List ℕ)
      → crypto.sign t rsa_pkcs1 key source ≡ resolve signature
      → length signature < 2 ^ 32

module _ (browser : Browser) (crypto : Crypto) (laws : Interop crypto (hmac_options_length browser))
    (generation : Generation crypto (hmac_options_length browser)) (rsa : RsaInterop crypto) where
  open crypto use {Key}

  abbrev packed : List ℕ → Encrypted → List ℕ → List ℕ → Dict
  packed cipher encrypted of_data of_encrypted =
      dict_of_message
        (signed browser crypto laws generation rsa cipher encrypted of_data of_encrypted)

  signed_fields :
      (cipher of_data of_encrypted sealed mac : List ℕ)
      → length cipher < 2 ^ 32
      → length of_data < 2 ^ 32
      → length of_encrypted < 2 ^ 32
      → length sealed < 2 ^ 32
      → length mac < 2 ^ 32
      → All IsField (
          packed cipher
            (record { aes_encrypted = array_buffer sealed; hmac = array_buffer mac })
            of_data
            of_encrypted)
  unfolding find_index
  signed_fields cipher of_data of_encrypted sealed mac a b c d e = (
    field "rsaEncrypted" cipher refl a,
    (
      field "signatureOfData" of_data refl b,
      (
        field "signatureOfEncrypted" of_encrypted refl c,
        (field "aesEncrypted" sealed refl d, (field "hmac" mac refl e, tt)),
      ),
    ),
  )

  signed-Distinct :
      (cipher : List ℕ) (encrypted : Encrypted) (of_data of_encrypted : List ℕ)
      → Distinct (packed cipher encrypted of_data of_encrypted)
  signed-Distinct cipher encrypted of_data of_encrypted = (
    (
      differ "rsaEncrypted" "signatureOfData" refl,
      (
        differ "rsaEncrypted" "signatureOfEncrypted" refl,
        (differ "rsaEncrypted" "aesEncrypted" refl, (differ "rsaEncrypted" "hmac" refl, tt)),
      ),
    ),
    (
      (
        differ "signatureOfData" "signatureOfEncrypted" refl,
        (differ "signatureOfData" "aesEncrypted" refl, (differ "signatureOfData" "hmac" refl, tt)),
      ),
      (
        (
          differ "signatureOfEncrypted" "aesEncrypted" refl,
          (differ "signatureOfEncrypted" "hmac" refl, tt),
        ),
        ((differ "aesEncrypted" "hmac" refl, tt), (tt, tt)),
      ),
    ),
  )

  -- The receiver's message can be verified and opened like the one that was sent.
  received-Signed :
      (private_key verify_key : Key) (message : Source) (dict : Message) (received : Dict)
      (made : SignedMessage browser crypto laws generation rsa private_key verify_key message dict)
      → Carries (packed made.cipher made.encrypted made.of_data made.of_encrypted) received
      → Signed browser crypto laws generation rsa private_key verify_key
          (message_of_dict received)
          (bytes message)
  unfolding message_of_dict lookup
  received-Signed private_key verify_key message dict received made carries =
      let (rsa', found_rsa, whole_rsa, same_rsa) =
        carries.found "rsaEncrypted" (array_buffer made.cipher) refl in
      let (data', found_data, whole_data, same_data) =
        carries.found "signatureOfData" (array_buffer made.of_data) refl in
      let (encrypted', found_encrypted, whole_encrypted, same_encrypted) =
        carries.found "signatureOfEncrypted" (array_buffer made.of_encrypted) refl in
      let (aes', found_aes, whole_aes, same_aes) =
        carries.found "aesEncrypted" made.encrypted.aes_encrypted refl in
      let (mac', found_mac, whole_mac, same_mac) = carries.found "hmac" made.encrypted.hmac refl in
      rw (message_of_dict, found_rsa, found_data, found_encrypted, found_aes, found_mac)
        (record {
          aes = made.aes;
          hmac = made.hmac;
          aes_sized = made.aes_sized;
          hmac_sized = made.hmac_sized;
          aes_encrypted = aes';
          extended = refl;
          decrypts = λ u. made.decrypts u rsa' same_rsa;
          verifies_data = λ u. made.verifies_data u data' _ same_data refl;
          verifies_encrypted =
              λ u. made.verifies_encrypted u encrypted' rsa' same_encrypted same_rsa;
          openable =
              Sealed-Openable browser crypto laws made.encrypted
                (record { aes_encrypted = aes'; hmac = mac' }) made.aes made.hmac (bytes message)
                made.sealed whole_aes same_aes same_mac;
        })

  -- The packed form of a signed message whose parts are short enough for the format.
  transport-SignedMessage :
      (private_key verify_key : Key) (message : Source) (dict : Message)
      → Short crypto (hmac_options_length browser) (bytes message)
      → ShortRsa crypto
      → SignedMessage browser crypto laws generation rsa private_key verify_key message dict
      → (sent : List ℕ) × (received : Dict) × (encode (dict_of_message dict) ≡ ok sent)
        × (decode (array_buffer sent) ≡ ok received)
        × Signed browser crypto laws generation rsa private_key verify_key
            (message_of_dict received)
            (bytes message)
  transport-SignedMessage private_key verify_key message dict short short_rsa made =
      let (sealed, mac, same, small, small') =
        Sealed-buffers browser crypto laws made.encrypted made.aes made.hmac (bytes message)
          made.sealed short in
      let (t, key, source, encrypts) = made.cipher_made in
      let (u, key', source', signs) = made.data_made in
      let (v, key'', source'', signs') = made.encrypted_made in
      let (sent, received, encodes, decodes, carries) =
        transport_lem (packed made.cipher made.encrypted made.of_data made.of_encrypted)
          (subst
            (λ (e : Encrypted). All IsField (packed made.cipher e made.of_data made.of_encrypted))
            (sym same)
            (signed_fields made.cipher made.of_data made.of_encrypted sealed mac
              (short_rsa.cipher_short t key source made.cipher encrypts)
              (short_rsa.signature_short u key' source' made.of_data signs)
              (short_rsa.signature_short v key'' source'' made.of_encrypted signs') small small'))
          (signed-Distinct made.cipher made.encrypted made.of_data made.of_encrypted) in
      (
        sent,
        received,
        ap (λ (d : Message). encode (dict_of_message d)) made.is_signed ∙ encodes,
        decodes,
        received-Signed private_key verify_key message dict received made carries,
      )

  -- With a pair of RSA keys for encryption and one for signatures, a message that is there, and
  -- ciphertexts, HMACs and signatures short enough for the format, `asym.encryptAndSign` hands a
  -- signed message to `onSuccess`, `pack.encode` packs it, and `pack.decode` unpacks that:
  -- `asym.verifyAndDecrypt` of what was unpacked then hands the bytes of the message to its own
  -- `onSuccess`, on whatever page it is called.
  pub verify_unpacked-encrypt_and_sign_packed :
      {E : Type 0} (public_key private_key sign_key verify_key : Key) (message : Source)
      (p : Page Key E)
      → rsa.IsPair public_key private_key
      → rsa.IsSigner sign_key verify_key
      → message ≢ undefined
      → Short crypto (hmac_options_length browser) (bytes message)
      → ShortRsa crypto
      → (dict : Message) × (q : Page Key E) × (sent : List ℕ) × (received : Dict) × Delivers
          (encrypt_and_sign browser crypto public_key sign_key message)
          p
          dict
          q
        × (encode (dict_of_message dict) ≡ ok sent)
        × (decode (array_buffer sent) ≡ ok received)
        × ((r : Page Key E)
            → (s : Page Key E) × Delivers
                (verify_and_decrypt browser crypto private_key verify_key
                  (message_of_dict received))
                r
                (bytes message)
                s)
  verify_unpacked-encrypt_and_sign_packed public_key private_key sign_key verify_key message p
        is_pair is_signer defined short short_rsa =
      let (dict, q, delivers, made) =
        encrypt_and_sign-SignedMessage browser crypto laws generation rsa public_key private_key
          sign_key verify_key message p is_pair is_signer defined in
      let (sent, received, encodes, decodes, whole) =
        transport-SignedMessage private_key verify_key message dict short short_rsa made in
      (
        dict,
        q,
        sent,
        received,
        delivers,
        encodes,
        decodes,
        λ r.
            verify_and_decrypt-Signed browser crypto laws generation rsa private_key verify_key
              (message_of_dict received) (bytes message) r whole,
      )
