-- ===== src/Tests/Toy.antt =====
-- A browser for the tests: its ciphertext is the message, and its HMAC the key and the message.
use crypto_security_projects.Base.{
  ℕ, ◌≡◌, ◌∙◌, refl, ap, sym, arith, Bool, true, false, ◌&&◌, List, [], ◌∷◌, ◌++◌, none, some,
  replicate, length-replicate, ◌==◌,
}
use crypto_security_projects.Js.{Source, bytes, array_buffer}
use crypto_security_projects.Config.{Browser}
use crypto_security_projects.Runtime.{Keys, Page, Arg, resolve}
use crypto_security_projects.WebCrypto.{Crypto, Algorithm, as_object}
use crypto_security_projects.WebCrypto.Laws.{Interop}

abbrev pub same_bytes : List ℕ → List ℕ → Bool
same_bytes [] [] = true
same_bytes (a ∷ xs) (b ∷ ys) = a == b && same_bytes xs ys
same_bytes _ _ = false

pub same_bytes_refl : (xs : List ℕ) → same_bytes xs xs ≡ true
same_bytes_refl [] = refl
same_bytes_refl (a ∷ xs) = ground (arith, same_bytes_refl xs)

abbrev pub toy_browser : Browser
toy_browser = record { old_webkit = false; old_ie = false; has_then = true }

-- A key is its material.
abbrev pub toy : Crypto
toy = record {
  Key = List ℕ;
  generate_key = λ t algorithm extractable usages.
      resolve (replicate (elim algorithm [ Algorithm.aes_cbc_length n ↦ 16 | _ ↦ 20 ]) t);
  import_raw = λ t raw algorithm extractable usages. resolve (bytes raw);
  export_raw = λ t key. resolve key;
  generate_key_pair = λ t algorithm extractable usages.
      resolve (record { public_key = t ∷ []; private_key = t ∷ [] });
  import_jwk = λ t jwk algorithm extractable usages. resolve [];
  export_jwk = λ t key. resolve (as_object []);
  algorithm_name = λ key. "RSA-OAEP";
  encrypt = λ t algorithm key message. resolve (bytes message);
  decrypt = λ t algorithm key cipher. resolve (bytes cipher);
  sign = λ t algorithm key message. resolve (key ++ bytes message);
  verify = λ t algorithm key mac message. resolve (same_bytes (bytes mac) (key ++ bytes message));
  derive_bits = λ t algorithm key n. resolve key;
  random_bytes = λ t n. replicate n t;
  random_uint16 = λ t. t;
}

pub toy_verifies :
    (key other raw mac message message' : List ℕ)
    → key ≡ raw
    → other ≡ raw
    → mac ≡ key ++ message
    → message' ≡ message
    → same_bytes mac (other ++ message') ≡ true
toy_verifies key other raw mac message message' k o m same =
    ap (λ (bs : List ℕ). same_bytes bs (other ++ message'))
      (m
        ∙ ap (λ (ks : List ℕ). ks ++ message) (k ∙ sym o)
        ∙ ap (λ (ms : List ℕ). other ++ ms) (sym same))
    ∙ same_bytes_refl (other ++ message')

abbrev pub toy_laws : Interop toy 160
toy_laws = record {
  IsAes = λ key raw. key ≡ raw;
  IsHmac = λ key raw. key ≡ raw;
  import_aes = λ t raw sized. (bytes raw, refl, refl);
  import_hmac = λ t raw sized. (bytes raw, refl, refl);
  aes_cbc_inverse = λ t key raw iv message is_aes sized defined.
      (bytes message, refl, λ u other iv' cipher' is_other same_iv same. ap resolve same);
  hmac_verifies = λ t key raw message is_hmac defined. (
    key ++ bytes message,
    refl,
    λ u other mac' message' is_other same_mac same. ap resolve (
        toy_verifies key other raw (bytes mac') (bytes message) (bytes message') is_hmac is_other
          same_mac same),
  );
  length-random_bytes = λ t n. length-replicate n t;
}

abbrev pub aes_raw : Source
aes_raw = array_buffer (replicate 16 7)

abbrev pub hmac_raw : Source
hmac_raw = array_buffer (replicate 20 9)

-- Every keys object of the page has raw keys alone.
abbrev pub raw_keys : Keys (List ℕ)
raw_keys = record {
  aes_key = some aes_raw;
  hmac_key = some hmac_raw;
  aes_key_obj = none;
  hmac_key_obj = none;
  iv = none;
}

-- What a test shows of a run.
pub data Shown : Type 0 where
  failed : List Arg → Shown
  handed : List ℕ → Shown

abbrev pub start : Page (List ℕ) Shown
start = record { objects = λ r. raw_keys; next = 1; clock = 0; reports = [] }
