-- ===== src/Transport/Sealed.antt =====
-- A message that `sym.encrypt` has sealed, on its way through `pack`.
use crypto_security_projects.Base.{
  ℕ, ◌+◌, ◌^◌, ◌<◌, ◌≡◌, ◌≢◌, refl, sym, subst, arith, List, ◌++◌, length, length-append, All,
}
use crypto_security_projects.Js.{ok, Source, array_buffer, undefined, bytes}
use crypto_security_projects.Js.Objects.{lookup, differ}
use crypto_security_projects.Config.{Browser, hmac_options_length}
use crypto_security_projects.Runtime.{Page, resolve}
use crypto_security_projects.Runtime.Delivery.{Delivers}
use crypto_security_projects.WebCrypto.{Crypto, aes_cbc_iv, hmac_length}
use crypto_security_projects.WebCrypto.Laws.{Interop}
use crypto_security_projects.Pack.{Dict, encode, decode, find_index}
use crypto_security_projects.Pack.RoundTrip.{IsField, Distinct}
use crypto_security_projects.Sym.{Encrypted, encrypt}
use crypto_security_projects.Sym.Seal.{IvIsGood, Sealed}
use crypto_security_projects.Sym.Open.{Ready, Openable, Sealed-Openable, Decrypts, decrypt-Openable}
use crypto_security_projects.Sym.RoundTrip.{encrypt-Sealed}
use crypto_security_projects.Transport.{dict_of_encrypted, encrypted_of_dict}
use crypto_security_projects.Transport.Fields.{Carries, field, transport_lem}

-- The ciphertexts of the message, with the iv before them, and the HMACs fit four size bytes.
pub record Short (crypto : Crypto) (hmac_bits : ℕ) (message : List ℕ) : Type 0 where
  pub cipher_short :
      (t : ℕ) (key : crypto.Key) (iv source : Source) (cipher : List ℕ)
      → bytes source ≡ message
      → crypto.encrypt t (aes_cbc_iv iv) key source ≡ resolve cipher
      → 16 + length cipher < 2 ^ 32
  pub mac_short :
      (t : ℕ) (key : crypto.Key) (source : Source) (mac : List ℕ)
      → crypto.sign t (hmac_length hmac_bits) key source ≡ resolve mac
      → length mac < 2 ^ 32

module _ (browser : Browser) (crypto : Crypto)
    (laws : Interop crypto (hmac_options_length browser)) where
  open crypto use {Key}

  -- The two buffers of a sealed message.
  pub Sealed-buffers :
      (encrypted : Encrypted) (aes hmac message : List ℕ)
      → Sealed browser crypto laws encrypted aes hmac message
      → Short crypto (hmac_options_length browser) message
      → (sealed : List ℕ) × (mac : List ℕ) × (encrypted
          ≡ record { aes_encrypted = array_buffer sealed; hmac = array_buffer mac })
        × (length sealed < 2 ^ 32)
        × (length mac < 2 ^ 32)
  Sealed-buffers encrypted aes hmac message sealed short =
      let (t, key, iv, source, encrypts) = sealed.cipher_made in
      let (u, key', source', source'', signs) = sealed.mac_made in
      let small = short.cipher_short t key iv source sealed.cipher sealed.made_of encrypts in
      (
        sealed.iv ++ sealed.cipher,
        sealed.mac,
        sealed.is_sealed,
        omega (arith, small, sealed.sized, length-append sealed.iv sealed.cipher),
        short.mac_short u key' source'' sealed.mac signs,
      )

  sealed_fields :
      (sealed mac : List ℕ)
      → length sealed < 2 ^ 32
      → length mac < 2 ^ 32
      → All IsField (
          dict_of_encrypted
            (record { aes_encrypted = array_buffer sealed; hmac = array_buffer mac }))
  unfolding find_index
  sealed_fields sealed mac small small' =
      (field "aesEncrypted" sealed refl small, (field "hmac" mac refl small', tt))

  sealed-Distinct : (encrypted : Encrypted) → Distinct (dict_of_encrypted encrypted)
  sealed-Distinct encrypted = ((differ "aesEncrypted" "hmac" refl, tt), (tt, tt))

  -- The receiver's object can be opened like the one that was sent.
  received-Openable :
      (sent : Encrypted) (received : Dict) (aes hmac message : List ℕ)
      → Sealed browser crypto laws sent aes hmac message
      → Carries (dict_of_encrypted sent) received
      → Openable browser crypto laws (encrypted_of_dict received) aes hmac message
  unfolding encrypted_of_dict lookup
  received-Openable sent received aes hmac message sealed carries =
      let (aes', found_aes, whole, same_aes) =
        carries.found "aesEncrypted" sent.aes_encrypted refl in
      let (mac', found_mac, whole', same_mac) = carries.found "hmac" sent.hmac refl in
      rw (encrypted_of_dict, found_aes, found_mac)
        (Sealed-Openable browser crypto laws sent (record { aes_encrypted = aes'; hmac = mac' }) aes
          hmac message sealed whole same_aes same_mac)

  -- With usable keys, a defined message, and ciphertexts and HMACs short enough for the format,
  -- `sym.encrypt` hands an encrypted message to `onSuccess`, `pack.encode` packs it, and
  -- `pack.decode` unpacks that: `sym.decrypt` of what was unpacked then hands the bytes of the
  -- message to its own `onSuccess`, whenever it is called and with whatever keys object of the same
  -- raw keys.
  pub decrypt_unpacked-encrypt_packed :
      {E : Type 0} (keys : ℕ) (p : Page Key E) (aes hmac message : Source)
      → Ready browser crypto laws keys p aes hmac
      → IvIsGood browser crypto laws (p.objects keys)
      → message ≢ undefined
      → Short crypto (hmac_options_length browser) (bytes message)
      → (encrypted : Encrypted) × (q : Page Key E) × (sent : List ℕ) × (received : Dict) × Delivers
          (encrypt browser crypto keys message)
          p
          encrypted
          q
        × (encode (dict_of_encrypted encrypted) ≡ ok sent)
        × (decode (array_buffer sent) ≡ ok received)
        × ((keys' : ℕ) (r : Page Key E)
            → Ready browser crypto laws keys' r aes hmac
            → Decrypts browser crypto laws keys' r (encrypted_of_dict received) (bytes message))
  decrypt_unpacked-encrypt_packed keys p aes hmac message ready good defined short =
      let (encrypted, q, seals, raw, sealed) =
        encrypt-Sealed browser crypto laws keys p aes hmac message ready good defined in
      let (bs, mac, same, small, small') =
        Sealed-buffers encrypted (bytes aes) (bytes hmac) (bytes message) sealed short in
      let (sent, received, encodes, decodes, carries) =
        transport_lem (dict_of_encrypted encrypted)
          (subst (λ (e : Encrypted). All IsField (dict_of_encrypted e)) (sym same)
            (sealed_fields bs mac small small'))
          (sealed-Distinct encrypted) in
      (
        encrypted,
        q,
        sent,
        received,
        seals,
        encodes,
        decodes,
        λ keys' r ready'.
            decrypt-Openable browser crypto laws keys' r aes hmac (encrypted_of_dict received)
              (bytes message) ready'
              (received-Openable encrypted received (bytes aes) (bytes hmac) (bytes message) sealed
                carries),
      )
