-- ===== src/Sym/Password/Stored.antt =====
-- What `sym.encryptWithPassword` and `decryptWithPassword` make of derived bytes: a keys object that is
-- ready for use.
use crypto_security_projects.Base.{
  ℕ, suc, ◌+◌, ◌-◌, ◌<◌, ◌≤◌, ◌^◌, ◌≡◌, ◌∙◌, refl, ap, sym, arith, List, some, none, length,
  length-take, length-drop, drop, min,
}
use crypto_security_projects.Base.Int.{pos, to_uint32, signed32}
use crypto_security_projects.Js.{Source, array_buffer, uint8_array, bytes, fresh, Attempt}
use crypto_security_projects.Config.{Browser, hmac_options_length, pbkdf2_min_iterations}
use crypto_security_projects.Runtime.{Page, Keys, stored, ask, attempt, tick}
use crypto_security_projects.Runtime.Delivery.{objects-stored}
use crypto_security_projects.WebCrypto.{Crypto}
use crypto_security_projects.WebCrypto.Laws.{Interop}
use crypto_security_projects.Util.{uint32_to_buffer}
use crypto_security_projects.Util.Words.{get_random_bounds, sum_bytes-uint32_to_buffer}
use crypto_security_projects.Internal.Pbkdf2.{
  missing, given_iterations, choose_salt, choose_iterations,
}
use crypto_security_projects.Internal.Pbkdf2.Compat.{Given, Chooses}
use crypto_security_projects.Sym.Seal.{IvIsGood}
use crypto_security_projects.Sym.Open.{Ready}
use crypto_security_projects.Sym.Password.{split_keys, salt_option, count_option}

-- The two raw keys in 36 derived bytes.
abbrev pub aes_part : List ℕ → Source
aes_part derived = uint8_array derived 0 (min 16 (length derived))

abbrev pub hmac_part : List ℕ → Source
hmac_part derived =
    uint8_array derived (min 16 (length derived)) (length derived - min 16 (length derived))

length-aes_part : (derived : List ℕ) → length derived ≡ 36 → length (bytes (aes_part derived)) ≡ 16
length-aes_part derived h = omega (arith, length-take (min 16 (length derived)) derived)

length-hmac_part :
    (derived : List ℕ) → length derived ≡ 36 → length (bytes (hmac_part derived)) ≡ 20
length-hmac_part derived h =
    let first = min 16 (length derived) in
    omega
      (arith, length-take (length derived - first) (drop first derived), length-drop first derived)

-- The page on which the keys object was made.
abbrev pub with_keys : {K E : Type 0} → List ℕ → Page K E → Page K E
with_keys derived p = record (stored p.next (split_keys derived) p) { next = suc p.next }

module _ (browser : Browser) (crypto : Crypto) (laws : Interop crypto (hmac_options_length browser))
    {E : Type 0} where
  open crypto use {Key}

  found :
      (derived : List ℕ) (p : Page Key E)
      → (with_keys derived p).objects p.next ≡ split_keys derived
  found derived p = objects-stored p.next (split_keys derived) p

  pub with_keys-Ready :
      (derived : List ℕ) (p : Page Key E)
      → length derived ≡ 36
      → Ready browser crypto laws p.next
          (with_keys derived p)
          (aes_part derived)
          (hmac_part derived)
  with_keys-Ready derived p h = (
    record {
      aes_key = ap (λ (o : Keys Key). o.aes_key) (found derived p);
      hmac_key = ap (λ (o : Keys Key). o.hmac_key) (found derived p);
      aes_sized = length-aes_part derived h;
      hmac_sized = length-hmac_part derived h;
    },
    λ aes_obj hmac_obj there also.
        let clash : none ≡ some aes_obj =
          sym (ap (λ (o : Keys Key). o.aes_key_obj) (found derived p)) ∙ there in
        cc,
  )

  pub with_keys-IvIsGood :
      (derived : List ℕ) (p : Page Key E)
      → IvIsGood browser crypto laws ((with_keys derived p).objects p.next)
  with_keys-IvIsGood derived p iv there =
      let clash : none ≡ some iv = sym (ap (λ (o : Keys Key). o.iv) (found derived p)) ∙ there in cc

-- With no options, a random salt is made and a number of iterations from 20000 to 24000.
module _ (browser : Browser) (crypto : Crypto) {E : Type 0} where
  open crypto use {Key}

  abbrev pub RandomChoice : Page Key E → Type 0
  RandomChoice p =
      (salt : List ℕ) × (c : ℕ) × (q : Page Key E) × Chooses browser crypto
        (record { salt = none; iterations = missing }) p (fresh salt) c q
      × (suc c < 2 ^ 31)

  pub random_choice : ((t : ℕ) → crypto.random_uint16 t ≤ 65535) → (p : Page Key E) → RandomChoice p
  unfolding choose_salt choose_iterations given_iterations ask attempt
  random_choice range p =
      let (r, chosen, small, at_most) =
        get_random_bounds 4000 (crypto.random_uint16 (suc p.clock)) (omega arith)
          (range (suc p.clock)) in
      let next : r + pbkdf2_min_iterations ≡ suc (r + 19999) = omega arith in
      (
        crypto.random_bytes p.clock 16,
        r + 19999,
        tick (tick p),
        λ k.
            ap
              (λ (m : Attempt ℕ).
                attempt m
                  (λ n.
                    k (fresh (crypto.random_bytes p.clock 16))
                      (some (pos (n + pbkdf2_min_iterations))))
                  (tick (tick p)))
              chosen
            ∙ ap
                (λ (m : ℕ).
                  k (fresh (crypto.random_bytes p.clock 16)) (some (pos m)) (tick (tick p)))
                next,
        omega arith,
      )

signed32_small : (n : ℕ) → n < 2 ^ 31 → signed32 (to_uint32 (pos n)) ≡ pos n
signed32_small n h = ground arith

-- What was stored with the message gives the same salt and number back.
pub stored-Given :
    (salt : List ℕ) (c : ℕ)
    → suc c < 2 ^ 31
    → Given
        (record {
          salt = salt_option (array_buffer salt);
          iterations = count_option (array_buffer (uint32_to_buffer (pos (suc c))));
        })
        (array_buffer salt)
        c
unfolding given_iterations
stored-Given salt c h = record {
  salt_given = refl;
  defined = λ e. cc;
  count_given =
      ap some (sum_bytes-uint32_to_buffer (pos (suc c)) ∙ ap some (signed32_small (suc c) h));
}
