-- ===== src/Internal/Asym/Settling.antt =====
-- Each operation of `internal.asym` on messages calls one of its callbacks, once, or throws at once.
use crypto_security_projects.Base.{ℕ, Bool, true, false, List, [], ◌≡◌, ◌≢◌, arith}
use crypto_security_projects.Js.{Source, array_buffer, uint8_array, undefined, stuck, sub_view}
use crypto_security_projects.Config.{Browser}
use crypto_security_projects.Runtime.{Arg, Run, Failure}
use crypto_security_projects.Runtime.Settling.{
  Answers, Settles, if-Settles, raise-Settles, attempt-Settles, allocate-Settles, load-Settles,
  Answers-Settles,
}
use crypto_security_projects.WebCrypto.{Crypto}
use crypto_security_projects.Internal.Sym.Settling.{call-Settles, combine_arrays-ne-stuck}
use crypto_security_projects.Sym.{Encrypted, property}
use crypto_security_projects.Sym.Settling.{decrypt-Settles, gen_keys_and_encrypt-Settles}
use crypto_security_projects.Internal.Asym.{
  Split, parts, wrong_size, split_combined, Extended, extend_data, extend_with_keys, decrypt_parts,
  aes_decrypt, verify_signature,
}
use crypto_security_projects.Util.{combine_arrays}

split_combined-ne-stuck : (browser : Browser) (s : Source) → split_combined browser s ≢ stuck
unfolding split_combined sub_view
split_combined-ne-stuck browser (array_buffer bs) e = ground arith
split_combined-ne-stuck browser (uint8_array bs offset len) e = ground arith
split_combined-ne-stuck browser (Source.array ns) e = cc
split_combined-ne-stuck browser undefined e = cc

module _ (browser : Browser) (promises : browser.has_then ≡ true) (crypto : Crypto)
    {E : Type 0} where
  open crypto use {Key}

  decrypt_parts-Settles :
      (encrypted : Encrypted) (e : Failure Key E) (k : List ℕ → Run Key E) (split : Split)
      → ((args : List Arg) → Answers (e args))
      → ((a : List ℕ) → Settles (k a))
      → Settles (decrypt_parts browser crypto encrypted e k split)
  decrypt_parts-Settles encrypted e k (wrong_size len) ea ks = Answers-Settles (e _) (ea _)
  decrypt_parts-Settles encrypted e k (parts aes hmac) ea ks =
      allocate-Settles _ _ λ keys. decrypt-Settles browser promises crypto keys encrypted e k ea ks

  pub aes_decrypt-Settles :
      (combined : Source) (encrypted : Encrypted) (e : Failure Key E) (k : List ℕ → Run Key E)
      → ((args : List Arg) → Answers (e args))
      → ((a : List ℕ) → Settles (k a))
      → Settles (aes_decrypt browser crypto combined encrypted e k)
  unfolding aes_decrypt
  aes_decrypt-Settles combined encrypted e k ea ks =
      attempt-Settles (split_combined browser combined) _ (split_combined-ne-stuck browser combined)
        λ split. decrypt_parts-Settles encrypted e k split ea ks

  extend_with_keys-Settles :
      (message : Source) (e : Failure Key E) (k : Extended → Bool → Run Key E)
      → ((args : List Arg) → Answers (e args))
      → ((a : Extended) (b : Bool) → Settles (k a b))
      → Settles (extend_with_keys browser crypto message e k)
  unfolding extend_with_keys
  extend_with_keys-Settles message e k ea ks =
      gen_keys_and_encrypt-Settles browser promises crypto message e _ ea λ keys encrypted.
        load-Settles keys _ λ object.
          attempt-Settles (combine_arrays (property object.aes_key) (property object.hmac_key)) _
            (combine_arrays-ne-stuck _ _) λ content. ks _ true

  pub extend_data-Settles :
      (message : Source) (e : Failure Key E) (k : Extended → Bool → Run Key E)
      → ((args : List Arg) → Answers (e args))
      → ((a : Extended) (b : Bool) → Settles (k a b))
      → Settles (extend_data browser crypto message e k)
  unfolding extend_data
  extend_data-Settles undefined e k ea ks = raise-Settles _
  extend_data-Settles (array_buffer bs) e k ea ks =
      if-Settles _ _ _ (ks _ false) (extend_with_keys-Settles (array_buffer bs) e k ea ks)
  extend_data-Settles (uint8_array bs offset len) e k ea ks =
      if-Settles _ _ _ (ks _ false) (extend_with_keys-Settles (uint8_array bs offset len) e k ea ks)
  extend_data-Settles (Source.array ns) e k ea ks =
      if-Settles _ _ _ (ks _ false) (extend_with_keys-Settles (Source.array ns) e k ea ks)

  pub verify_signature-Settles :
      (key : Key) (signature message : Source) (e : Failure Key E) (k : Run Key E)
      → ((args : List Arg) → Answers (e args))
      → Settles k
      → Settles (verify_signature browser crypto key signature message e k)
  unfolding verify_signature
  verify_signature-Settles key signature message e k ea ks =
      call-Settles browser promises crypto _ e _ ea
        λ valid. if-Settles valid k (e []) ks (Answers-Settles (e []) (ea []))
