-- ===== src/App/RsaKeyPair.antt =====
-- lib/rsaKeyPair.js of EmmaStreamingSolution/src/www/js: an RSA key pair by jwcrypto, from a text.
use crypto_security_projects.Base.{
  ℕ, List, Option, none, some, ◌≡◌, ◌≢◌, ◌⊎◌, inl, inr, refl, arith,
}
use crypto_security_projects.Js.{Exn, Attempt, ok, throw, stuck, ◌>>=◌, ◌>>◌, type_error}
use crypto_security_projects.WebCrypto.{KeyPair}

-- A callback of jwcrypto: of an error and a key pair, either of which may be missing, it makes a
-- value, which may be `undefined`.
abbrev pub Callback : Type 0 → Type 0
Callback K = Option Exn → Option (KeyPair K) → Option (KeyPair K)

-- jwcrypto, a parameter: what it does with the entropy, and with a key size and a callback. Neither
-- call has a value that the code looks at; either may throw.
pub record JwCrypto : Type 1 where
  pub Key : Type 0
  pub add_entropy : List ℕ → Attempt (Unit {0})
  pub generate_keypair : ℕ → Callback Key → Attempt (Unit {0})

module _ (jw_crypto : JwCrypto) where
  open jw_crypto use {Key}

  -- A function of a seed that gives a key pair or `undefined`.
  abbrev pub Generate : Type 0
  Generate = List ℕ → Attempt (Option (KeyPair Key))

  -- `function(err, keyPair) { return keyPair; }`
  abbrev pub return_pair : Callback Key
  return_pair err key_pair = key_pair

  -- The body ends without `return`.
  unfoldable pub generate_key_pair : Generate
  generate_key_pair seed = do
    jw_crypto.add_entropy seed
    jw_crypto.generate_keypair 256 return_pair
    ok none

  -- `this.GenerateKeyPair(seed)`: where `this` has no such property, the call throws.
  abbrev pub call_generate : Option Generate → Generate
  call_generate none seed = throw type_error
  call_generate (some generate) seed = generate seed

  -- `keyPair.publicKey`, where `undefined` has no properties.
  abbrev pub property_of : (KeyPair Key → Key) → Option (KeyPair Key) → Attempt Key
  property_of field none = throw type_error
  property_of field (some pair) = ok (field pair)

  -- The first argument is `this.GenerateKeyPair`.
  unfoldable pub public_key : Option Generate → List ℕ → Attempt Key
  public_key this seed = do pair ← call_generate this seed; property_of (λ p. p.public_key) pair

  unfoldable pub private_key : Option Generate → List ℕ → Attempt Key
  private_key this seed = do pair ← call_generate this seed; property_of (λ p. p.private_key) pair

  -- Two steps and then `undefined` give no key pair.
  no_pair :
      (adds generates : Attempt (Unit {0})) (pair : KeyPair Key)
      → (adds >> (generates >> ok none)) ≢ ok (some pair)
  no_pair (ok _) (ok _) pair = λ made. ground arith
  no_pair (ok _) (throw x) pair = λ made. cc
  no_pair (ok _) stuck pair = λ made. cc
  no_pair (throw x) generates pair = λ made. cc
  no_pair stuck generates pair = λ made. cc

  generate_key_pair-none :
      (seed : List ℕ) (pair : KeyPair Key) → generate_key_pair seed ≢ ok (some pair)
  unfolding generate_key_pair
  generate_key_pair-none seed =
      no_pair (jw_crypto.add_entropy seed) (jw_crypto.generate_keypair 256 return_pair)

  -- Without a pair there is no key.
  no_key :
      (field : KeyPair Key → Key) (made : Attempt (Option (KeyPair Key))) (key : Key)
      → ((pair : KeyPair Key) → made ≢ ok (some pair))
      → (made >>= property_of field) ≢ ok key
  no_key field (ok none) key never = λ found. cc
  no_key field (ok (some pair)) key never = λ found. never pair refl
  no_key field (throw x) key never = λ found. cc
  no_key field stuck key never = λ found. cc

  call_generate-none :
      (this : Option Generate) (seed : List ℕ) (pair : KeyPair Key)
      → (this ≡ none) ⊎ (this ≡ some generate_key_pair)
      → call_generate this seed ≢ ok (some pair)
  call_generate-none this seed pair (inl absent) = rw absent (λ made. cc)
  call_generate-none this seed pair (inr own) = rw own (generate_key_pair-none seed pair)

  -- Whatever jwcrypto does with its callback, and whether `this` has the function of this script or
  -- none, `PublicKey` and `PrivateKey` never give a key.
  pub keys_lost :
      (this : Option Generate) (seed : List ℕ) (key : Key)
      → (this ≡ none) ⊎ (this ≡ some generate_key_pair)
      → (public_key this seed ≢ ok key) × (private_key this seed ≢ ok key)
  unfolding public_key private_key
  keys_lost this seed key from =
      let never = λ (pair : KeyPair Key). call_generate-none this seed pair from in
      let made = call_generate this seed in
      (no_key (λ p. p.public_key) made key never, no_key (λ p. p.private_key) made key never)
