-- ===== src/Sym/Generate.antt =====
-- `sym.generateKeys` where the browser makes keys: it hands out an object that is ready for use.
use crypto_security_projects.Base.{
  ℕ, suc, ◌≡◌, ◌∙◌, refl, ap, sym, List, none, some, length, Option-transfer,
}
use crypto_security_projects.Js.{array_buffer}
use crypto_security_projects.Config.{Browser, hmac_options_length}
use crypto_security_projects.Runtime.{Page, Keys, stored, tick, allocate, bind}
use crypto_security_projects.Runtime.Delivery.{Delivers, objects-stored}
use crypto_security_projects.WebCrypto.{Crypto}
use crypto_security_projects.WebCrypto.Laws.{Interop, Generation}
use crypto_security_projects.Internal.Sym.{
  generate_key_aes, generate_key_hmac, export_key, import_key_aes, import_key_hmac,
}
use crypto_security_projects.Internal.Sym.Steps.{call_then}
use crypto_security_projects.Sym.{generate_keys}
use crypto_security_projects.Sym.Seal.{IvIsGood}
use crypto_security_projects.Sym.Open.{Ready}

module _ (browser : Browser) (crypto : Crypto) (laws : Interop crypto (hmac_options_length browser))
    (generation : Generation crypto (hmac_options_length browser)) where
  open crypto use {Key}

  abbrev pub generated : List ℕ → List ℕ → Key → Key → Keys Key
  generated aes hmac aes_obj hmac_obj = record {
    aes_key = some (array_buffer aes);
    hmac_key = some (array_buffer hmac);
    aes_key_obj = some aes_obj;
    hmac_key_obj = some hmac_obj;
    iv = none;
  }

  -- `generateKeys` ends on a page with a new object, whose keys have the right sizes.
  abbrev pub Generates : {E : Type 0} → Page Key E → Type 0
  Generates {E} p =
      (aes : List ℕ) × (hmac : List ℕ) × (keys : ℕ) × (q : Page Key E) × Delivers
        (generate_keys browser crypto) p keys q
      × Ready browser crypto laws keys q (array_buffer aes) (array_buffer hmac)
      × IvIsGood browser crypto laws (q.objects keys)
      × (length aes ≡ 16)
      × (length hmac ≡ 20)

  pub generate_keys-Delivers : {E : Type 0} (p : Page Key E) → Generates p
  unfolding generate_keys generate_key_aes generate_key_hmac export_key import_key_aes
      import_key_hmac allocate
  generate_keys-Delivers {E} p =
      let (aes_key, made_aes, exports_aes) = generation.generate_aes p.clock in
      let (hmac_key, made_hmac, exports_hmac) = generation.generate_hmac (suc p.clock) in
      let (aes, exported_aes, aes_sized) = exports_aes (suc (suc p.clock)) in
      let (hmac, exported_hmac, hmac_sized) = exports_hmac (suc (suc (suc p.clock))) in
      let p₄ = tick (tick (tick (tick p))) in
      let (aes_obj, imported_aes, is_aes) = laws.import_aes p₄.clock (array_buffer aes) aes_sized in
      let (hmac_obj, imported_hmac, is_hmac) =
        laws.import_hmac (suc p₄.clock) (array_buffer hmac) hmac_sized in
      let p₆ = tick (tick p₄) in
      let object = generated aes hmac aes_obj hmac_obj in
      let q : Page Key E = record (stored p₆.next object p₆) { next = suc p₆.next } in
      let found : q.objects p₆.next ≡ object = objects-stored p₆.next object p₆ in
      (
        aes,
        hmac,
        p₆.next,
        q,
        λ e k quiet.
            call_then browser crypto _ (bind e "Could not generate AES key") _ p made_aes
              (call_then browser crypto _ (bind e "Could not generate HMAC key") _ (tick p)
                made_hmac
                (call_then browser crypto _ (bind e "Could not export AES key") _ (tick (tick p))
                  exported_aes
                  (call_then browser crypto _ (bind e "Could not export HMAC key") _
                    (tick (tick (tick p))) exported_hmac
                    (call_then browser crypto _ (bind e "Could not import AES key") _ p₄
                      imported_aes
                      (call_then browser crypto _ (bind e "Could not import HMAC key") _ (tick p₄)
                        imported_hmac refl quiet)
                      quiet)
                    quiet)
                  quiet)
                quiet)
              quiet,
        (
          record {
            aes_key = ap (λ (o : Keys Key). o.aes_key) found;
            hmac_key = ap (λ (o : Keys Key). o.hmac_key) found;
            aes_sized = aes_sized;
            hmac_sized = hmac_sized;
          },
          λ a h aes_there hmac_there. (
            Option-transfer (λ (key : Key). laws.IsAes key aes) (q.objects p₆.next).aes_key_obj
                (ap (λ (o : Keys Key). o.aes_key_obj) found) aes_there is_aes,
            Option-transfer (λ (key : Key). laws.IsHmac key hmac) (q.objects p₆.next).hmac_key_obj
                (ap (λ (o : Keys Key). o.hmac_key_obj) found) hmac_there is_hmac,
          ),
        ),
        λ iv there.
            let clash : none ≡ some iv = sym (ap (λ (o : Keys Key). o.iv) found) ∙ there in cc,
        aes_sized,
        hmac_sized,
      )
