-- ===== src/Internal/Sym/Settling.antt =====
-- Each operation of `internal.sym` calls one of its callbacks, once, or throws at once.
use crypto_security_projects.Base.{
  ℕ, true, false, List, [], ◌∷◌, Option, ◌≡◌, ◌≢◌, arith, if◌then◌else◌,
}
use crypto_security_projects.Js.{Source, array_buffer, stuck, sub_view}
use crypto_security_projects.Config.{Browser}
use crypto_security_projects.Runtime.{Arg, label, Run, Failure, Settled, resolve, ask, tick}
use crypto_security_projects.Runtime.Settling.{
  Answers, Settles, wrap_resolved-Settles, attempt-Settles, Answers-Settles,
}
use crypto_security_projects.Util.{combine_arrays}
use crypto_security_projects.WebCrypto.{Crypto}
use crypto_security_projects.Internal.Sym.{call, split_iv, encrypt, decrypt_aes, verify_hmac}

pub combine_arrays-ne-stuck : (a b : Source) → combine_arrays a b ≢ stuck
unfolding combine_arrays
combine_arrays-ne-stuck a b e = ground arith

split_iv-ne-stuck : (s : Source) → split_iv s ≢ stuck
unfolding split_iv sub_view
split_iv-ne-stuck s e = ground arith

module _ (browser : Browser) (promises : browser.has_then ≡ true) (crypto : Crypto)
    {E : Type 0} where
  open crypto use {Key}

  pub call_resolved-Settles {ℓ} :
      {A : Type ℓ} (operation : ℕ → Settled A) (e : Failure Key E) (k : A → Run Key E)
      → ((args : List Arg) → Answers (e args))
      → ((t : ℕ) (a : A) → operation t ≡ resolve a → Settles (k a))
      → Settles (call browser crypto operation e k)
  unfolding call ask
  call_resolved-Settles operation e k ea ks p =
      rw promises (wrap_resolved-Settles (operation p.clock) e k ea (ks p.clock) (tick p))

  pub call-Settles {ℓ} :
      {A : Type ℓ} (operation : ℕ → Settled A) (e : Failure Key E) (k : A → Run Key E)
      → ((args : List Arg) → Answers (e args))
      → ((a : A) → Settles (k a))
      → Settles (call browser crypto operation e k)
  call-Settles operation e k ea ks = call_resolved-Settles operation e k ea λ t a resolved. ks a

  pub encrypt-Settles :
      (key : Option Key) (iv message : Source) (e : Failure Key E) (k : Source → Run Key E)
      → ((args : List Arg) → Answers (e args))
      → ((a : Source) → Settles (k a))
      → Settles (encrypt browser crypto key iv message e k)
  unfolding encrypt
  encrypt-Settles key iv message e k ea ks = call-Settles _ e _ ea λ encrypted.
      attempt-Settles (combine_arrays iv (array_buffer encrypted)) _
        (combine_arrays-ne-stuck iv (array_buffer encrypted)) λ c. ks _

  pub decrypt_aes-Settles :
      (key : Option Key) (cipherdata : Source) (e : Failure Key E) (k : List ℕ → Run Key E)
      → ((args : List Arg) → Answers (e args))
      → ((a : List ℕ) → Settles (k a))
      → Settles (decrypt_aes browser crypto key cipherdata e k)
  unfolding decrypt_aes
  decrypt_aes-Settles key cipherdata e k ea ks =
      attempt-Settles (split_iv cipherdata) _ (split_iv-ne-stuck cipherdata)
        λ parts. call-Settles _ e k ea ks

  pub verify_hmac-Settles :
      (key : Option Key) (mac cipherdata : Source) (e : Failure Key E) (k : Run Key E)
      → ((args : List Arg) → Answers (e args))
      → Settles k
      → Settles (verify_hmac browser crypto key mac cipherdata e k)
  unfolding verify_hmac
  verify_hmac-Settles key mac cipherdata e k ea ks =
      call-Settles _ e (λ valid. if valid then k else e (label "Invalid HMAC" ∷ [])) ea
        (elim [ true ↦ ks | false ↦ Answers-Settles (e (label "Invalid HMAC" ∷ [])) (ea _) ])
