-- ===== src/SimpleCrypto/Missing.antt =====
-- simplecrypto.js in a browser without a WebCrypto interface.
use crypto_security_projects.Base.{ℕ, ◌≡◌, refl, List, none, some}
use crypto_security_projects.Js.{ok, Source}
use crypto_security_projects.Config.{Browser}
use crypto_security_projects.Runtime.{Page, Run, Failure}
use crypto_security_projects.WebCrypto.{Json}
use crypto_security_projects.Environment.{Window, CryptoObject, crypto_object, crypto_subtle}
use crypto_security_projects.Internal.Pbkdf2.{Options, Derived}
use crypto_security_projects.Sym.{Encrypted}
use crypto_security_projects.Asym.{Message}
use crypto_security_projects.SimpleCrypto.{
  SimpleCrypto, Natives, without_interface, browser_of, library_of, factory,
}
use crypto_security_projects.SimpleCrypto.Internal.{util, internal}
use crypto_security_projects.SimpleCrypto.Public.{StorageObject, asym, sym, pbkdf2, pack}
use crypto_security_projects.SimpleCrypto.Refusal.{
  Throws, ThrowsAt, HasRawAlone, generate_keys-Throws, sym_encrypt-Throws, sym_decrypt-Throws,
  gen_keys_and_encrypt-Throws, derive-Throws, asym_generate_keys-Throws, asym_encrypt-Throws,
  encrypt_and_sign-Throws, asym_decrypt-Throws, verify_and_decrypt-Throws,
}

-- The operations that throw, whatever they are given.
pub record Unusable (K V T E : Type 0) (library : SimpleCrypto K V T E) : Type 0 where
  pub generate_keys : (e : Failure K E) (k : ℕ → Run K E) → Throws (library.sym.generate_keys e k)
  pub sym_encrypt :
      (keys : ℕ) (message : Source) (e : Failure K E) (k : Encrypted → Run K E) (p : Page K E)
      → HasRawAlone (p.objects keys)
      → ThrowsAt p (library.sym.encrypt keys message e k)
  pub sym_decrypt :
      (keys : ℕ) (encrypted : Encrypted) (e : Failure K E) (k : List ℕ → Run K E) (p : Page K E)
      → HasRawAlone (p.objects keys)
      → ThrowsAt p (library.sym.decrypt keys encrypted e k)
  pub gen_keys_and_encrypt :
      (message : Source) (e : Failure K E) (k : ℕ → Encrypted → Run K E)
      → Throws (library.sym.gen_keys_and_encrypt message e k)
  pub derive :
      (password : List ℕ) (bits : ℕ) (options : Options) (e : Failure K E) (k : Derived → Run K E)
      → Throws (library.pbkdf2.derive password bits options e k)
  pub asym_generate_keys :
      (e : Failure K E) (k : _ → Run K E) → Throws (library.asym.generate_keys e k)
  pub asym_encrypt :
      (key : K) (message : Source) (e : Failure K E) (k : Message → Run K E)
      → Throws (library.asym.encrypt key message e k)
  pub encrypt_and_sign :
      (key sign_key : K) (message : Source) (e : Failure K E) (k : Message → Run K E)
      → Throws (library.asym.encrypt_and_sign key sign_key message e k)
  pub asym_decrypt :
      (key : K) (dict : Message) (e : Failure K E) (k : List ℕ → Run K E)
      → Throws (library.asym.decrypt key dict e k)
  pub verify_and_decrypt :
      (key verify_key : K) (dict : Message) (e : Failure K E) (k : List ℕ → Run K E)
      → Throws (library.asym.verify_and_decrypt key verify_key dict e k)

module _ (browser : Browser) (bytes : ℕ → ℕ → List ℕ) (uint16 : ℕ → ℕ) {E : Type 0} where
  unusable :
      {V T : Type 0} (json : Json) (storage : StorageObject V T E)
      → Unusable Unit V T E (record {
        storage = storage;
        asym = asym browser json (without_interface bytes uint16);
        sym = sym browser json (without_interface bytes uint16);
        pbkdf2 = pbkdf2 browser json (without_interface bytes uint16);
        pack = pack;
        util = util;
        internal = internal browser json (without_interface bytes uint16);
      })
  unusable json storage = record {
    generate_keys = generate_keys-Throws browser bytes uint16;
    sym_encrypt = sym_encrypt-Throws browser bytes uint16;
    sym_decrypt = sym_decrypt-Throws browser bytes uint16;
    gen_keys_and_encrypt = gen_keys_and_encrypt-Throws browser bytes uint16;
    derive = derive-Throws browser bytes uint16;
    asym_generate_keys = asym_generate_keys-Throws browser bytes uint16 json;
    asym_encrypt = asym_encrypt-Throws browser bytes uint16;
    encrypt_and_sign = encrypt_and_sign-Throws browser bytes uint16;
    asym_decrypt = asym_decrypt-Throws browser bytes uint16;
    verify_and_decrypt = verify_and_decrypt-Throws browser bytes uint16;
  }

-- Where there is a `window.crypto`, or else a `window.msCrypto`, without a WebCrypto interface, the
-- factory makes the library all the same, and each of these operations of it throws a TypeError at
-- the call, and whatever its callbacks are, nothing is reported: `generateKeys`,
-- `genKeysAndEncrypt`, and `encrypt` and `decrypt` with a keys object that has both raw keys and no
-- AES key made of one, of `sym`; `generateKeys`, `encrypt`, `encryptAndSign`, `decrypt` and
-- `verifyAndDecrypt` of `asym`; and `pbkdf2.derive`.
pub factory-Unusable :
    {S D V E : Type 0} (natives : Natives S D V) (window : Window S D) (c : CryptoObject S)
    → crypto_object window ≡ some c
    → c.subtle ≡ none
    → c.webkit_subtle ≡ none
    → (factory natives {E = E} window ≡ ok (library_of natives window none))
      × Unusable Unit V
          (library_of natives {E = E} window none).db.State
          E
          (library_of natives window none).simple_crypto
unfolding factory crypto_subtle
factory-Unusable natives window c found no_subtle no_webkit = (
  rw (factory, crypto_subtle, found, no_subtle, no_webkit) refl,
  unusable (browser_of natives window none) natives.random_bytes natives.random_uint16 natives.json
      _,
)
