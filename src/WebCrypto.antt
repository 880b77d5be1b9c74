-- ===== src/WebCrypto.antt =====
-- WebCrypto, which the browser implements: the operations that simplecrypto.js calls. Each takes
-- the number of operations asked before it, on which its result may depend (random keys and salts,
-- randomised encryption, failures).
pub mod Laws
use crypto_security_projects.Base.{ℕ, List, Bool, Option, String}
use crypto_security_projects.Base.Int.{ℤ}
use crypto_security_projects.Js.{Source, Attempt}
use crypto_security_projects.Runtime.{Settled}

pub data Usage : Type 0 where
  encrypt decrypt sign verify derive_bits : Usage

-- The algorithm objects that the code passes.
pub data Algorithm : Type 0 where
  -- { name: "AES-CBC" }, with a length in bits, and with an iv.
  aes_cbc : Algorithm
  aes_cbc_length : ℕ → Algorithm
  aes_cbc_iv : Source → Algorithm
  -- `config.hmacOptions`, with its length, and HMAC with SHA-1 alone.
  hmac_length : ℕ → Algorithm
  hmac : Algorithm
  -- RSA-OAEP and RSASSA-PKCS1-v1_5 with a modulus length, and with the hash alone.
  rsa_oaep_length : ℕ → Algorithm
  rsa_oaep : Algorithm
  rsa_pkcs1_length : ℕ → Algorithm
  rsa_pkcs1 : Algorithm
  -- { name: "PBKDF2" }, and with the salt and the iterations, where `none` is NaN.
  pbkdf2 : Algorithm
  pbkdf2_bits : Source → Option ℤ → Algorithm

-- What a member of a JSON Web Key holds: a text, a truth value, or texts.
pub data Member : Type 0 where
  text : String → Member
  flag : Bool → Member
  texts : List String → Member

abbrev pub Jwk : Type 0
Jwk = List (String × Member)

-- A key in the format "jwk": an object or, in old browsers, the bytes of its JSON.
pub data KeyData : Type 0 where
  as_object : Jwk → KeyData
  as_bytes : Source → KeyData

-- `{publicKey, privateKey}`
pub record KeyPair (K : Type 0) : Type 0 where
  pub public_key : K
  pub private_key : K

pub record Crypto : Type 1 where
  pub Key : Type 0
  pub generate_key : ℕ → Algorithm → Bool → List Usage → Settled Key
  pub import_raw : ℕ → Source → Algorithm → Bool → List Usage → Settled Key
  pub export_raw : ℕ → Key → Settled (List ℕ)
  pub generate_key_pair : ℕ → Algorithm → Bool → List Usage → Settled (KeyPair Key)
  pub import_jwk : ℕ → KeyData → Algorithm → Bool → List Usage → Settled Key
  pub export_jwk : ℕ → Key → Settled KeyData
  -- `key.algorithm.name.toUpperCase()`
  pub algorithm_name : Key → String
  pub encrypt : ℕ → Algorithm → Key → Source → Settled (List ℕ)
  pub decrypt : ℕ → Algorithm → Key → Source → Settled (List ℕ)
  pub sign : ℕ → Algorithm → Key → Source → Settled (List ℕ)
  -- The signature comes before the data.
  pub verify : ℕ → Algorithm → Key → Source → Source → Settled Bool
  pub derive_bits : ℕ → Algorithm → Key → ℕ → Settled (List ℕ)
  -- `getRandomValues` of a Uint8Array of the given length, and of one 16-bit number.
  pub random_bytes : ℕ → ℕ → List ℕ
  pub random_uint16 : ℕ → ℕ

-- `JSON.stringify` and `JSON.parse`, on the code units of a text.
pub record Json : Type 0 where
  pub stringify : Jwk → List ℕ
  pub parse : List ℕ → Attempt Jwk
