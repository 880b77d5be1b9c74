-- ===== src/Internal/Pbkdf2/Compat.antt =====
-- `compatDerive` against PBKDF2.
use crypto_security_projects.Base.{
  ℕ, refl, suc, ◌+◌, ◌-◌, ◌*◌, ◌/◌, ◌<◌, ◌≤◌, ◌≡◌, ◌≢◌, ◌∙◌, ap, arith, List, [], ◌∷◌, Option, some,
  length, take, false,
}
use crypto_security_projects.Base.Int.{ℤ, pos}
use crypto_security_projects.Js.{array_buffer, uint8_array, array, Source, undefined, bytes}
use crypto_security_projects.Config.{Browser}
use crypto_security_projects.Runtime.{Page, Run, tick, resolve}
use crypto_security_projects.Runtime.Delivery.{Delivers}
use crypto_security_projects.WebCrypto.{Crypto, Usage, hmac}
use crypto_security_projects.Util.{string_to_bytes}
use crypto_security_projects.Internal.Sym.Steps.{call-Delivers}
use crypto_security_projects.Internal.Pbkdf2.{
  Options, result, given_salt, given_iterations, choose_salt, choose_iterations, import_key_hmac,
  derive_loop, compat_derive,
}
use crypto_security_projects.Internal.Pbkdf2.Standard.{derived_key, blocks}
use crypto_security_projects.Internal.Pbkdf2.Blocks.{Computes}
use crypto_security_projects.Internal.Pbkdf2.Output.{derive_loop-Delivers}

-- The browser's HMAC with a password: it takes the bytes of the password as a key, and then
-- computes the function `prf` of 20 bytes.
pub record HmacOf (crypto : Crypto) (password : List ℕ) (prf : List ℕ → List ℕ) : Type 0 where
  pub key : ℕ → crypto.Key
  pub imported :
      (t : ℕ)
      → crypto.import_raw t (string_to_bytes password) hmac false (Usage.sign ∷ Usage.verify ∷ [])
        ≡ resolve (key t)
  pub computes : (t : ℕ) → Computes crypto (key t) prf
  pub sized : (bs : List ℕ) → length (prf bs) ≡ 20

-- The options give a salt, and a number of iterations of at least 1.
pub record Given (options : Options) (salt : Source) (c : ℕ) : Type 0 where
  pub salt_given : options.salt ≡ some salt
  pub defined : salt ≢ undefined
  pub count_given : given_iterations options.iterations ≡ some (some (pos (suc c)))

-- A salt that is there is given as it is.
given_salt-some : (salt : Source) → salt ≢ undefined → given_salt (some salt) ≡ some salt
given_salt-some (array_buffer bs) defined = refl
given_salt-some (uint8_array bs offset len) defined = refl
given_salt-some (array ns) defined = refl
given_salt-some undefined defined = absurd (defined refl)

-- Whole blocks cover the bytes.
module _ (n : ℕ) (positive : 0 < n) (small : n ≤ 5100) where
  abbrev more : ℕ
  more = (n + 19) / 20 - 1

  more_lem : suc more ≡ (n + 19) / 20
  more_lem = omega arith

module _ (browser : Browser) (crypto : Crypto) {E : Type 0} where
  open crypto use {Key}

  -- The options, with what is random, come to this salt and this number of iterations.
  abbrev pub Chooses : Options → Page Key E → Source → ℕ → Page Key E → Type 0
  Chooses options p salt c q =
      (k : Source → Option ℤ → Run Key E)
      → choose_salt browser crypto options (λ s. choose_iterations browser crypto options (k s)) p
        ≡ k salt (some (pos (suc c))) q

  choose_salt-given :
      (options : Options) {salt : Source} (k : Source → Run Key E)
      → options.salt ≡ some salt
      → salt ≢ undefined
      → choose_salt browser crypto options k ≡ k salt
  unfolding choose_salt
  choose_salt-given options {salt} k given defined =
      let there = ap given_salt given ∙ given_salt-some salt defined in rw (choose_salt, there)

  choose_iterations-given :
      (options : Options) {count : Option ℤ} (k : Option ℤ → Run Key E)
      → given_iterations options.iterations ≡ some count
      → choose_iterations browser crypto options k ≡ k count
  unfolding choose_iterations
  choose_iterations-given options k given = rw (choose_iterations, given)

  pub Given-Chooses :
      (options : Options) (salt : Source) (c : ℕ) (p : Page Key E)
      → Given options salt c
      → Chooses options p salt c p
  Given-Chooses options salt c p given k =
      ap (λ (m : Run Key E). m p)
        (choose_salt-given options (λ s. choose_iterations browser crypto options (k s))
            given.salt_given given.defined
          ∙ choose_iterations-given options (k salt) given.count_given)

module _ (browser : Browser) (crypto : Crypto) (password : List ℕ) (prf : List ℕ → List ℕ)
    (mac : HmacOf crypto password prf) {E : Type 0} where
  open crypto use {Key}

  -- The same for any options, once the salt and the iterations are chosen.
  pub compat_derive_chosen :
      (options : Options) (salt : Source) (c n : ℕ) (p q : Page Key E)
      → Chooses browser crypto options p salt c q
      → salt ≢ undefined
      → 0 < n
      → n ≤ 5100
      → (r : Page Key E) × Delivers
          (compat_derive browser crypto password (n * 8) options)
          p
          (result salt (some (pos (suc c))) (derived_key prf (bytes salt) (suc c) n))
          r
  unfolding compat_derive import_key_hmac
  compat_derive_chosen options salt c n p q chooses defined positive small =
      let key = mac.key q.clock in
      let (r, loop) =
        derive_loop-Delivers browser crypto prf key (mac.computes q.clock) mac.sized salt defined c
          n (more n positive small) (n * 8 / 8 + 1) 1 [] (tick q) (omega arith) (omega arith)
          (omega arith) (omega arith) in
      (
        r,
        λ e k quiet.
            let count = some (pos (suc c)) in
            let same =
              ap (λ (m : ℕ). k (result salt count (take n (blocks prf (bytes salt) (suc c) m 1))) r)
                (more_lem n positive small) in
            let looped =
              loop e (λ derived. k (result salt count derived)) (ap (λ o. o.thrown) same ∙ quiet)
              ∙ same in
            let import : Source → Option ℤ → Run Key E = λ s iterations.
              import_key_hmac browser crypto password e λ hmac_key.
                derive_loop browser crypto (n * 8 / 8 + 1) hmac_key 1 (n * 8) s iterations [] e
                  λ derived. k (result s iterations derived) in
            chooses import
            ∙ call-Delivers browser crypto _ (mac.imported q.clock) e
                (λ hmac_key.
                  derive_loop browser crypto (n * 8 / 8 + 1) hmac_key 1 (n * 8) salt count [] e
                    λ derived. k (result salt count derived))
                (ap (λ o. o.thrown) looped ∙ quiet)
            ∙ looped,
      )
