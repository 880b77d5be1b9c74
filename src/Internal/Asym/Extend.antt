-- ===== src/Internal/Asym/Extend.antt =====
-- `extendData` where the browser makes keys: what it hands out.
use crypto_security_projects.Base.{
  ℕ, ◌≡◌, ◌≢◌, ◌∙◌, ap, Bool, true, List, ◌++◌, Option, none, some, length,
}
use crypto_security_projects.Js.{Source, array_buffer, undefined, bytes, fresh, Attempt}
use crypto_security_projects.Config.{Browser, hmac_options_length}
use crypto_security_projects.Runtime.{Page, Run, Failure, attempt, load}
use crypto_security_projects.WebCrypto.{Crypto}
use crypto_security_projects.WebCrypto.Laws.{Interop, Generation}
use crypto_security_projects.Util.{combine_arrays}
use crypto_security_projects.Util.Text.{bytes-combine_arrays}
use crypto_security_projects.Internal.Asym.{
  Extended, extend_data, extend_with_keys, extend_data-extend_with_keys,
}
use crypto_security_projects.Sym.{Encrypted, property, encrypt, gen_keys_and_encrypt}
use crypto_security_projects.Sym.Seal.{Sealed}
use crypto_security_projects.Sym.RoundTrip.{encrypt-Sealed}
use crypto_security_projects.Sym.Generate.{generate_keys-Delivers}

module _ (browser : Browser) (crypto : Crypto) (laws : Interop crypto (hmac_options_length browser))
    (generation : Generation crypto (hmac_options_length browser)) where
  open crypto use {Key}

  -- The keys in one array, and the message sealed with them.
  abbrev pub combined : List ℕ → List ℕ → Encrypted → Extended
  combined aes hmac encrypted = record {
    content = fresh (aes ++ hmac);
    additional = some encrypted;
  }

  abbrev pub Extends : {E : Type 0} → Page Key E → Source → Type 0
  Extends {E} p message =
      (aes : List ℕ) × (hmac : List ℕ) × (encrypted : Encrypted) × (q : Page Key E) × ((e : Failure
            Key E)
          (k : Extended → Bool → Run Key E)
        → (k (combined aes hmac encrypted) true q).thrown ≡ none
        → extend_data browser crypto message e k p ≡ k (combined aes hmac encrypted) true q)
      × Sealed browser crypto laws encrypted aes hmac (bytes message)
      × (length aes ≡ 16)
      × (length hmac ≡ 20)

  pub extend_data-Delivers :
      {E : Type 0} (p : Page Key E) (message : Source) → message ≢ undefined → Extends p message
  unfolding extend_with_keys gen_keys_and_encrypt load attempt
  extend_data-Delivers {E} p message defined =
      let (aes, hmac, keys, p₁, generates, ready, good, aes_sized, hmac_sized) =
        generate_keys-Delivers browser crypto laws generation p in
      let (encrypted, q, seals, usable, sealed) =
        encrypt-Sealed browser crypto laws keys p₁ (array_buffer aes) (array_buffer hmac) message
          ready good defined in
      (
        aes,
        hmac,
        encrypted,
        q,
        λ e k quiet.
            let finish : Source → Run Key E =
              λ content. k (record { content = content; additional = some encrypted }) true in
            let joined : attempt
                  (combine_arrays (property (q.objects keys).aes_key)
                    (property (q.objects keys).hmac_key))
                  finish q
                ≡ k (combined aes hmac encrypted) true q =
              ap
                (λ (a : Option Source).
                  attempt (combine_arrays (property a) (property (q.objects keys).hmac_key)) finish
                    q)
                usable.0.aes_key
              ∙ ap
                  (λ (h : Option Source).
                    attempt (combine_arrays (array_buffer aes) (property h)) finish q)
                  usable.0.hmac_key
              ∙ ap (λ (m : Attempt Source). attempt m finish q)
                  (bytes-combine_arrays (array_buffer aes) (array_buffer hmac) (λ s. cc)
                    (λ s. cc)) in
            let take_keys : Encrypted → Run Key E = λ sealed_message. load keys λ object.
              attempt (combine_arrays (property object.aes_key) (property object.hmac_key))
                λ content.
                  k (record { content = content; additional = some sealed_message }) true in
            let encrypts = seals e take_keys (ap (λ o. o.thrown) joined ∙ quiet) ∙ joined in
            ap (λ (m : Run Key E). m p)
              (extend_data-extend_with_keys browser crypto message e k defined)
            ∙ generates e
                (λ made. encrypt browser crypto made message e λ sealed_message. load made λ object.
                  attempt (combine_arrays (property object.aes_key) (property object.hmac_key))
                    λ content.
                      k (record { content = content; additional = some sealed_message }) true)
                (ap (λ o. o.thrown) encrypts ∙ quiet)
            ∙ encrypts,
        sealed,
        aes_sized,
        hmac_sized,
      )
