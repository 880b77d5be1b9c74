-- ===== src/Sym/Fresh.antt =====
-- What `sym.genKeysAndEncrypt` seals, `sym.decrypt` opens with the keys that it hands out.
use crypto_security_projects.Base.{ℕ, ◌≡◌, ◌≢◌, ◌∙◌, ap, List, length}
use crypto_security_projects.Js.{Source, array_buffer, undefined, bytes}
use crypto_security_projects.Config.{Browser, hmac_options_length}
use crypto_security_projects.Runtime.{Page}
use crypto_security_projects.Runtime.Delivery.{Delivers}
use crypto_security_projects.WebCrypto.{Crypto}
use crypto_security_projects.WebCrypto.Laws.{Interop, Generation}
use crypto_security_projects.Sym.{Encrypted, encrypt, gen_keys_and_encrypt}
use crypto_security_projects.Sym.Open.{Ready, Decrypts, decrypt-Openable, Openable-Sealed}
use crypto_security_projects.Sym.RoundTrip.{encrypt-Sealed}
use crypto_security_projects.Sym.Generate.{generate_keys-Delivers}

module _ (browser : Browser) (crypto : Crypto) (laws : Interop crypto (hmac_options_length browser))
    (generation : Generation crypto (hmac_options_length browser)) where
  open crypto use {Key}

  -- In a browser that makes keys of the right sizes, and for a defined message, `genKeysAndEncrypt`
  -- hands a keys object and an encrypted message to `onSuccess`. `decrypt` with these keys, on the
  -- page as it is then, hands the bytes of the message to its own `onSuccess`; and so it does on any
  -- page, with any keys object that has the two raw keys of this one, of 16 and 20 bytes.
  pub decrypt-gen_keys_and_encrypt :
      {E : Type 0} (p : Page Key E) (message : Source)
      → message ≢ undefined
      → (keys : ℕ) × (encrypted : Encrypted) × (q : Page Key E) × (aes : List ℕ) × (hmac : List ℕ)
        × Delivers {A = ℕ × Encrypted}
            (λ e k. gen_keys_and_encrypt browser crypto message e (λ made sealed. k (made, sealed)))
            p
            (keys, encrypted)
            q
        × (length aes ≡ 16)
        × (length hmac ≡ 20)
        × Ready browser crypto laws keys q (array_buffer aes) (array_buffer hmac)
        × Decrypts browser crypto laws keys q encrypted (bytes message)
        × ((keys' : ℕ) (r : Page Key E)
            → Ready browser crypto laws keys' r (array_buffer aes) (array_buffer hmac)
            → Decrypts browser crypto laws keys' r encrypted (bytes message))
  unfolding gen_keys_and_encrypt
  decrypt-gen_keys_and_encrypt {E} p message is_defined =
      let (aes, hmac, keys, p₁, generates, ready, good, aes_sized, hmac_sized) =
        generate_keys-Delivers browser crypto laws generation p in
      let (encrypted, q, seals, usable, sealed) =
        encrypt-Sealed browser crypto laws keys p₁ (array_buffer aes) (array_buffer hmac) message
          ready good is_defined in
      let openable =
        Openable-Sealed browser crypto laws encrypted aes hmac (bytes message) sealed in
      let opens =
        λ (keys' : ℕ) (r : Page Key E)
            (ready' : Ready browser crypto laws keys' r (array_buffer aes) (array_buffer hmac)).
          decrypt-Openable browser crypto laws keys' r (array_buffer aes) (array_buffer hmac)
            encrypted (bytes message) ready' openable in
      (
        keys,
        encrypted,
        q,
        aes,
        hmac,
        λ e k quiet.
            let last = seals e (λ s. k (keys, s)) quiet in
            generates e (λ made. encrypt browser crypto made message e (λ s. k (made, s)))
              (ap (λ o. o.thrown) last ∙ quiet)
            ∙ last,
        aes_sized,
        hmac_sized,
        usable,
        opens keys q usable,
        opens,
      )
