-- ===== src/App.antt =====
-- The application of EmmaStreamingSolution/src/www/js: app.js and the modules app/clientUnique.js and
-- app/ClientKeyAndAuth.js, which derive a client's key and code from a fingerprint of the browser.
--
-- An `async` function returns a promise at once. Here it is given by the value that this promise
-- has in the end; its caller in app.js passes the promise on, and does not wait for it.
pub mod Constant
pub mod KeyPairs
pub mod Loading
pub mod RsaKeyPair
pub mod Scripts
use crypto_security_projects.Base.{ℕ, ◌%◌, List, [], ◌∷◌, ◌++◌, map, Option, none, some}
use crypto_security_projects.Js.{Attempt, ok, throw, stuck, Source, array, fresh}

-- A value of the application: a promise, with the value that it has in the end, an object of
-- CryptoJS, an array of bytes, or `undefined`.
pub data Value (W : Type 0) : Type 0 where
  promise : Value W → Value W
  words : W → Value W
  bytes_of : Source → Value W
  undefined_value : Value W

-- CryptoJS, a parameter. A text is a list of its code units.
pub record CryptoJs : Type 1 where
  pub Words : Type 0
  pub sha512 : Value Words → Attempt Words
  pub hmac_sha512 : List ℕ → List ℕ → Attempt Words
  pub base64_parse : List ℕ → Attempt Words
  pub words_to_string : Words → List ℕ
  pub bytes_to_text : Source → List ℕ

-- Fingerprint2, a parameter: the components that it hands to the callback of `get`, by their keys,
-- and its hash of a text with a seed.
pub record Fingerprint2 : Type 0 where
  pub components : List (List ℕ × List ℕ)
  pub x64hash128 : List ℕ → ℕ → List ℕ

-- `components.map(… .value).join('')`
abbrev pub joined_values : List (List ℕ × List ℕ) → List ℕ
joined_values [] = []
joined_values ((key, value) ∷ components) = value ++ joined_values components

-- What the callback of `Fingerprint2.get` prints, and returns to the library.
unfoldable pub murmur_hash : Fingerprint2 → List ℕ
murmur_hash fingerprint2 = fingerprint2.x64hash128 (joined_values fingerprint2.components) 31

-- "[object Promise]" and "undefined".
abbrev pub object_promise : List ℕ
object_promise =
    91 ∷ 111 ∷ 98 ∷ 106 ∷ 101 ∷ 99 ∷ 116 ∷ 32 ∷ 80 ∷ 114 ∷ 111 ∷ 109 ∷ 105 ∷ 115 ∷ 101 ∷ 93 ∷ []

abbrev pub undefined_text : List ℕ
undefined_text = 117 ∷ 110 ∷ 100 ∷ 101 ∷ 102 ∷ 105 ∷ 110 ∷ 101 ∷ 100 ∷ []

-- The loop that pushes the code of each character.
abbrev pub char_codes : List ℕ → List ℕ → List ℕ
char_codes [] chars = chars
char_codes (unit ∷ units) chars = char_codes units (chars ++ (unit ∷ []))

module _ (crypto_js : CryptoJs) where
  open crypto_js use {Words}

  -- `String(value)`
  abbrev pub to_string : Value Words → List ℕ
  to_string (promise value) = object_promise
  to_string (words w) = crypto_js.words_to_string w
  to_string (bytes_of source) = crypto_js.bytes_to_text source
  to_string undefined_value = undefined_text

  -- `try { return await … } catch (e) { console.log(…) }`
  abbrev pub logged : Attempt Words → Value Words
  logged (ok w) = words w
  logged (throw x) = undefined_value
  logged stuck = undefined_value

  -- `ClientFingerPrint`: its value in the end, and what it prints. The hash is returned to the
  -- library that calls the callback, and the function itself returns nothing.
  unfoldable pub client_finger_print : Fingerprint2 → Value Words × List ℕ
  client_finger_print fingerprint2 = (undefined_value, murmur_hash fingerprint2)

  unfoldable pub client_enc_iv : Value Words → Value Words
  client_enc_iv client_fp = logged (crypto_js.base64_parse (to_string client_fp))

  unfoldable pub client_digest : Value Words → Value Words
  client_digest client_fp = logged (crypto_js.sha512 client_fp)

  unfoldable pub client_secret_key : Value Words → Value Words
  client_secret_key digest = logged (crypto_js.base64_parse (to_string digest))

  unfoldable pub client_mac : Value Words → Value Words → Value Words
  client_mac digest secret_key =
      logged (crypto_js.hmac_sha512 (to_string digest) (to_string secret_key))

  -- `ClientDigestForTransport`, and the same loop for the key and the code.
  unfoldable pub client_digest_for_transport : Value Words → Value Words
  client_digest_for_transport digest = bytes_of (array (char_codes (to_string digest) []))

  unfoldable pub client_secret_key_for_transport : Value Words → Value Words
  client_secret_key_for_transport key = bytes_of (array (char_codes (to_string key) []))

  unfoldable pub client_mac_for_transport : Value Words → Value Words
  client_mac_for_transport mac = bytes_of (array (char_codes (to_string mac) []))

  -- `ClientFPforTransport` and `ClientEncIVForTransport`: here the codes are bytes, modulo 256.
  unfoldable pub client_fp_for_transport : Value Words → Value Words
  client_fp_for_transport client_fp =
      bytes_of (fresh (map (λ n. n % 256) (char_codes (to_string client_fp) [])))

  unfoldable pub client_enc_iv_for_transport : Value Words → Value Words
  client_enc_iv_for_transport enc_iv =
      bytes_of (fresh (map (λ n. n % 256) (char_codes (to_string enc_iv) [])))

-- What app.js has computed when the document is ready.
pub record Client (W : Type 0) : Type 0 where
  pub client_fp : Value W
  pub client_enc_iv : Value W
  pub client_digest : Value W
  pub client_secret_key : Value W
  pub client_mac : Value W

-- The five calls of app.js. Each gets the promises of the calls before it.
unfoldable pub start : Fingerprint2 → (crypto_js : CryptoJs) → Client crypto_js.Words
start fingerprint2 crypto_js =
    let fp = promise (client_finger_print crypto_js fingerprint2).0 in
    let digest = promise (client_digest crypto_js fp) in
    let secret_key = promise (client_secret_key crypto_js digest) in
    record {
      client_fp = fp;
      client_enc_iv = promise (client_enc_iv crypto_js fp);
      client_digest = digest;
      client_secret_key = secret_key;
      client_mac = promise (client_mac crypto_js digest secret_key);
    }
