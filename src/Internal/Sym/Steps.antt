-- ===== src/Internal/Sym/Steps.antt =====
-- The operations of `internal.sym` where the browser resolves them.
use crypto_security_projects.Base.{
  ℕ, ◌+◌, ◌≤◌, length-take, length-drop, take-take, take-drop, drop-drop, ◌≡◌, ◌≢◌, ◌∙◌, ap, sym,
  arith, ◌-◌, true, List, ◌++◌, none, some, length, length-append, take, drop, take-append,
  drop-append, take-length, if◌then◌else◌,
}
use crypto_security_projects.Js.{
  ok, Source, array_buffer, uint8_array, array, undefined, bytes, sub_view,
}
use crypto_security_projects.Config.{Browser, hmac_options_length}
use crypto_security_projects.Runtime.{
  Page, Outcome, Run, Failure, Settled, resolve, wrap, attempt, ask, tick,
}
use crypto_security_projects.Runtime.Delivery.{Delivers, wrap_resolved}
use crypto_security_projects.WebCrypto.{Crypto, aes_cbc_iv, hmac_length}
use crypto_security_projects.Util.{combine_arrays}
use crypto_security_projects.Util.Text.{bytes-combine_arrays}
use crypto_security_projects.Internal.Sym.{
  call, buffer_of, split_iv, encrypt, decrypt_aes, sign_hmac, verify_hmac,
}

module _ (browser : Browser) (crypto : Crypto) {E : Type 0} where
  open crypto use {Key}

  -- A resolved operation delivers its value, with promises and without.
  pub call-Delivers {ℓ} :
      {A : Type ℓ} (operation : ℕ → Settled A) {p : Page Key E} {a : A}
      → operation p.clock ≡ resolve a
      → Delivers (call browser crypto operation) p a (tick p)
  unfolding call ask
  call-Delivers operation {p = p} h e k quiet =
      ap (λ settled. wrap browser.has_then settled e k (tick p)) h
      ∙ wrap_resolved browser.has_then _ e k (tick p) quiet

  -- The same where the rest of the run is known: a chain of calls is followed from its end.
  pub call_then {ℓ} :
      {A : Type ℓ} (operation : ℕ → Settled A) {a : A} (e : Failure Key E) (k : A → Run Key E)
      (p : Page Key E) {o : Outcome Key E}
      → operation p.clock ≡ resolve a
      → k a (tick p) ≡ o
      → o.thrown ≡ none
      → call browser crypto operation e k p ≡ o
  call_then operation e k p h run quiet =
      call-Delivers operation h e k (ap (λ o. o.thrown) run ∙ quiet) ∙ run

-- The parts of a ciphertext: its iv, and what follows it.
abbrev pub Splits : Source → List ℕ → List ℕ → Type 0
Splits source iv cipher =
    (iv' : Source) × (cipher' : Source) × (split_iv source ≡ ok (iv', cipher'))
    × (bytes iv' ≡ iv)
    × (bytes cipher' ≡ cipher)

-- A buffer, or a view that lies in its buffer.
abbrev pub IsWhole : Source → Type 0
IsWhole (array_buffer bs) = Unit {0}
IsWhole (uint8_array bs offset len) = offset + len ≤ length bs
IsWhole _ = ⊥

-- The first 16 of `len` bytes, and the others.
module _ (view iv cipher : List ℕ) (len : ℕ) (same : take len view ≡ iv ++ cipher)
    (sized : length iv ≡ 16) (room : len ≤ length view) where
  split_length : len ≡ 16 + length cipher
  split_length = omega (arith, length-take len view, ap length same, length-append iv cipher)

  split_head : take 16 view ≡ iv
  split_head =
      ap (λ (n : ℕ). take n view) (sym sized)
      ∙ take-take (length iv) len view (omega (arith, split_length))
      ∙ ap (take (length iv)) same
      ∙ take-append iv cipher

  split_tail : take (len - 16) (drop 16 view) ≡ cipher
  split_tail =
      take-drop 16 len view
      ∙ ap (drop 16) same
      ∙ ap (λ (n : ℕ). drop n (iv ++ cipher)) (sym sized)
      ∙ drop-append iv cipher

-- Splitting the bytes that `encrypt` delivers gives the iv and the ciphertext back, wherever they
-- stand.
pub Splits-append :
    (source : Source) (iv cipher : List ℕ)
    → IsWhole source
    → bytes source ≡ iv ++ cipher
    → length iv ≡ 16
    → Splits source iv cipher
unfolding split_iv sub_view
Splits-append (array_buffer bs) iv cipher whole same sized = (
  uint8_array bs 0 16,
  uint8_array bs 16 (length bs - 16),
  ground (arith, ap length same, length-append iv cipher),
  split_head bs iv cipher (length bs) (take-length bs ∙ same) sized (omega arith),
  split_tail bs iv cipher (length bs) (take-length bs ∙ same) sized (omega arith),
)
Splits-append (uint8_array bs offset len) iv cipher whole same sized =
    let room : len ≤ length (drop offset bs) = omega (arith, whole, length-drop offset bs) in
    let sum : len ≡ 16 + length cipher =
      split_length (drop offset bs) iv cipher len same sized room in
    (
      uint8_array bs offset 16,
      uint8_array bs (offset + 16) (len - 16),
      ground (arith, whole, sum),
      split_head (drop offset bs) iv cipher len same sized room,
      ap (take (len - 16)) (drop-drop offset 16 bs)
          ∙ split_tail (drop offset bs) iv cipher len same sized room,
    )
Splits-append (array ns) iv cipher whole same sized = absurd whole
Splits-append undefined iv cipher whole same sized = absurd whole

-- Where the browser resolves an operation with a key, its call delivers the result.
module _ (browser : Browser) (crypto : Crypto) {E : Type 0} where
  open crypto use {Key}

  -- The buffer that `encrypt` delivers holds the iv and then the ciphertext.
  pub encrypt-Delivers :
      (key : Key) (iv message : Source) {p : Page Key E} {cipher : List ℕ}
      → iv ≢ undefined
      → crypto.encrypt p.clock (aes_cbc_iv iv) key message ≡ resolve cipher
      → Delivers
          (encrypt browser crypto (some key) iv message)
          p
          (array_buffer (bytes iv ++ cipher))
          (tick p)
  unfolding encrypt attempt
  encrypt-Delivers key iv message {p} {cipher} defined h e k quiet =
      let last =
        ap (λ m. attempt m (λ cipherdata. k (buffer_of cipherdata)) (tick p))
          (bytes-combine_arrays iv (array_buffer cipher) defined (λ same. cc)) in
      call-Delivers browser crypto _ h e
        (λ encrypted.
          attempt (combine_arrays iv (array_buffer encrypted))
            λ cipherdata. k (buffer_of cipherdata))
        (ap (λ o. o.thrown) last ∙ quiet)
      ∙ last

  pub decrypt_aes-Delivers :
      (key : Key) (source : Source) (iv cipher : List ℕ) {p : Page Key E} {message : List ℕ}
      → Splits source iv cipher
      → ((iv' cipher' : Source)
          → bytes iv' ≡ iv
          → bytes cipher' ≡ cipher
          → crypto.decrypt p.clock (aes_cbc_iv iv') key cipher' ≡ resolve message)
      → Delivers (decrypt_aes browser crypto (some key) source) p message (tick p)
  unfolding decrypt_aes attempt
  decrypt_aes-Delivers key source iv cipher {p} (iv', cipher', split, same_iv, same_cipher) h e k
        quiet =
      ap
        (λ m.
          attempt m
            (λ parts.
              call browser crypto (λ t. crypto.decrypt t (aes_cbc_iv parts.0) key parts.1) e k)
            p)
        split
      ∙ call-Delivers browser crypto _ (h iv' cipher' same_iv same_cipher) e k quiet

  pub sign_hmac-Delivers :
      (key : Key) (message : Source) {p : Page Key E} {mac : List ℕ}
      → crypto.sign p.clock (hmac_length (hmac_options_length browser)) key message ≡ resolve mac
      → Delivers (sign_hmac browser crypto (some key) message) p mac (tick p)
  unfolding sign_hmac
  sign_hmac-Delivers key message h = call-Delivers browser crypto _ h

  pub verify_hmac-Delivers :
      (key : Key) (mac message : Source) {p : Page Key E}
      → crypto.verify p.clock (hmac_length (hmac_options_length browser)) key mac message
        ≡ resolve true
      → Delivers {A = Unit {0}}
          (λ e k. verify_hmac browser crypto (some key) mac message e (k tt))
          p
          tt
          (tick p)
  unfolding verify_hmac
  verify_hmac-Delivers key mac message h e k quiet =
      call-Delivers browser crypto _ h e (λ valid. if valid then k tt else e _) quiet
