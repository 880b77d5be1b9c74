-- ===== src/Tests/Transport.antt =====
-- Messages that are packed and unpacked, in a browser of the tests whose ciphertexts and MACs are
-- short.
use crypto_security_projects.Base.{
  ℕ, ◌+◌, ◌^◌, ◌<◌, ◌≤◌, ◌≡◌, refl, ap, arith, List, [], ◌∷◌, ◌++◌, take, replicate, length,
  length-take, true, leb, if◌then◌else◌, length-replicate,
}
use crypto_security_projects.Js.{Source, array_buffer, uint8_array, bytes, type_error, ok, sub_view}
use crypto_security_projects.Runtime.{Page, Settled, resolve, reject}
use crypto_security_projects.Runtime.Delivery.{Delivers}
use crypto_security_projects.WebCrypto.{Crypto, Algorithm, rsa_oaep}
use crypto_security_projects.WebCrypto.Laws.{Interop, Generation, RsaInterop}
use crypto_security_projects.Pack.{
  Dict, encode, decode, decode_loop, get_uint8, get_uint32, read_frame, assign, label_of,
  find_label,
}
use crypto_security_projects.Pack.Views.{AreViews, decode-AreViews}
use crypto_security_projects.Sym.{Encrypted, encrypt}
use crypto_security_projects.Sym.Open.{Ready, Decrypts}
use crypto_security_projects.Asym.{Message, encrypt_and_sign, verify_and_decrypt}
use crypto_security_projects.Transport.{
  dict_of_encrypted, encrypted_of_dict, dict_of_message, message_of_dict,
}
use crypto_security_projects.Transport.Sealed.{Short, decrypt_unpacked-encrypt_packed}
use crypto_security_projects.Transport.Signed.{ShortRsa, verify_unpacked-encrypt_and_sign_packed}
use crypto_security_projects.Tests.Toy.{
  toy, toy_browser, same_bytes, same_bytes_refl, aes_raw, hmac_raw, start, Shown,
}

abbrev digest : List ℕ → List ℕ
digest bs = take 20 bs

-- RSA takes 214 bytes.
abbrev bounded : Algorithm → List ℕ → Settled (List ℕ)
bounded rsa_oaep message = if leb (length message) 214 then resolve message else reject type_error
bounded _ message = resolve message

abbrev short : Crypto
short = record toy {
  encrypt = λ t algorithm key message. bounded algorithm (bytes message);
  sign = λ t algorithm key message. resolve (digest (key ++ bytes message));
  verify = λ t algorithm key mac message.
      resolve (same_bytes (bytes mac) (digest (key ++ bytes message)));
}

short_verifies :
    (key other raw mac message message' : List ℕ)
    → key ≡ raw
    → other ≡ raw
    → mac ≡ digest (key ++ message)
    → message' ≡ message
    → same_bytes mac (digest (other ++ message')) ≡ true
short_verifies key other raw mac message message' k o m same =
    rw (m, k, o, same) (same_bytes_refl (digest (raw ++ message)))

abbrev short_laws : Interop short 160
short_laws = record {
  IsAes = λ key raw. key ≡ raw;
  IsHmac = λ key raw. key ≡ raw;
  import_aes = λ t raw sized. (bytes raw, refl, refl);
  import_hmac = λ t raw sized. (bytes raw, refl, refl);
  aes_cbc_inverse = λ t key raw iv message is_aes sized defined.
      (bytes message, refl, λ u other iv' cipher' is_other same_iv same. ap resolve same);
  hmac_verifies = λ t key raw message is_hmac defined. (
    digest (key ++ bytes message),
    refl,
    λ u other mac' message' is_other same_mac same. ap resolve (
        short_verifies key other raw (bytes mac') (bytes message) (bytes message') is_hmac is_other
          same_mac same),
  );
  length-random_bytes = λ t n. length-replicate n t;
}

abbrev short_generation : Generation short 160
short_generation = record {
  generate_aes = λ t. (replicate 16 t, refl, λ u. (replicate 16 t, refl, length-replicate 16 t));
  generate_hmac = λ t. (replicate 20 t, refl, λ u. (replicate 20 t, refl, length-replicate 20 t));
}

bounded_fits :
    (message : List ℕ) → length message ≤ 214 → bounded rsa_oaep message ≡ resolve message
bounded_fits message fits = ground (arith, fits)

abbrev short_rsa : RsaInterop short
short_rsa = record {
  IsPair = λ public private. public ≡ private;
  IsSigner = λ private public. private ≡ public;
  rsa_inverse = λ t public private message is_pair defined fits.
      (bytes message, bounded_fits (bytes message) fits, λ u cipher same. ap resolve same);
  rsa_verifies = λ t private public message is_signer defined. (
    digest (private ++ bytes message),
    refl,
    λ u signature message' same same_message. ap resolve (
        short_verifies private public public (bytes signature) (bytes message) (bytes message')
          is_signer refl same same_message),
  );
}

abbrev message : Source
message = array_buffer (1 ∷ 2 ∷ 3 ∷ [])

digest_short :
    (bs digested : List ℕ) → resolve (digest bs) ≡ resolve digested → length digested < 2 ^ 32
digest_short bs digested same = ground (arith, same, length-take 20 bs)

bounded_short : (bs cipher : List ℕ) → bounded rsa_oaep bs ≡ resolve cipher → length cipher < 2 ^ 32
bounded_short bs cipher encrypts = ground (arith, encrypts)

same_short :
    (bs cipher : List ℕ)
    → bs ≡ bytes message
    → resolve bs ≡ resolve cipher
    → 16 + length cipher < 2 ^ 32
same_short bs cipher same encrypts = ground (arith, encrypts, ap length same)

message-Short : Short short 160 (bytes message)
message-Short = record {
  cipher_short =
      λ t key iv source cipher same encrypts. same_short (bytes source) cipher same encrypts;
  mac_short = λ t key source mac signs. digest_short (key ++ bytes source) mac signs;
}

short_rsa_parts : ShortRsa short
short_rsa_parts = record {
  cipher_short = λ t key source cipher encrypts. bounded_short (bytes source) cipher encrypts;
  signature_short =
      λ t key source signature signs. digest_short (key ++ bytes source) signature signs;
}

ready : Ready toy_browser short short_laws 0 start aes_raw hmac_raw
ready =
    (record { aes_key = refl; hmac_key = refl; aes_sized = refl; hmac_sized = refl }, λ a h e. cc)

decrypt_unpacked-encrypt_packed_example :
    (encrypted : Encrypted) × (q : Page (List ℕ) Shown) × (sent : List ℕ) × (received : Dict)
    × Delivers (encrypt toy_browser short 0 message) start encrypted q
    × (encode (dict_of_encrypted encrypted) ≡ ok sent)
    × (decode (array_buffer sent) ≡ ok received)
    × ((keys' : ℕ) (r : Page (List ℕ) Shown)
        → Ready toy_browser short short_laws keys' r aes_raw hmac_raw
        → Decrypts toy_browser short short_laws keys' r
            (encrypted_of_dict received)
            (bytes message))
decrypt_unpacked-encrypt_packed_example =
    decrypt_unpacked-encrypt_packed toy_browser short short_laws 0 start aes_raw hmac_raw message
      ready (λ iv e. cc) (λ e. cc) message-Short

verify_unpacked-encrypt_and_sign_packed_example :
    (dict : Message) × (q : Page (List ℕ) Shown) × (sent : List ℕ) × (received : Dict) × Delivers
      (encrypt_and_sign toy_browser short (1 ∷ []) (2 ∷ []) message)
      start
      dict
      q
    × (encode (dict_of_message dict) ≡ ok sent)
    × (decode (array_buffer sent) ≡ ok received)
    × ((r : Page (List ℕ) Shown)
        → (s : Page (List ℕ) Shown) × Delivers
            (verify_and_decrypt toy_browser short (1 ∷ []) (2 ∷ []) (message_of_dict received))
            r
            (bytes message)
            s)
verify_unpacked-encrypt_and_sign_packed_example =
    verify_unpacked-encrypt_and_sign_packed toy_browser short short_laws short_generation short_rsa
      (1 ∷ []) (1 ∷ []) (2 ∷ []) (2 ∷ []) message start refl refl (λ e. cc) message-Short
      short_rsa_parts

abbrev packed : List ℕ
packed = 1 ∷ 1 ∷ 0 ∷ 0 ∷ 0 ∷ 2 ∷ 7 ∷ 8 ∷ []

decode_packed : decode (array_buffer packed) ≡ ok (("hmac", uint8_array packed 6 2) ∷ [])
unfolding decode decode_loop get_uint8 get_uint32 read_frame sub_view assign label_of find_label
decode_packed = refl

decode-AreViews_example :
    (buffer : List ℕ) × (array_buffer packed ≡ array_buffer buffer)
    × AreViews buffer (("hmac", uint8_array packed 6 2) ∷ [])
decode-AreViews_example =
    decode-AreViews (array_buffer packed) (("hmac", uint8_array packed 6 2) ∷ []) decode_packed
