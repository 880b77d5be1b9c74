-- ===== src/Config.antt =====
-- The browser flags and `config` at the top of simplecrypto.js.
use crypto_security_projects.Base.{ℕ, ◌+◌, ◌*◌, ◌/◌, String, Bool, if◌then◌else◌}
use crypto_security_projects.Base.Int.{ℤ, sub_ℕ}

-- What the code finds out about the browser: `oldWebkit`, `oldIE`, and whether the operations
-- return promises.
pub record Browser : Type 0 where
  pub old_webkit : Bool
  pub old_ie : Bool
  pub has_then : Bool

abbrev pub aes_length : ℕ
aes_length = 128

abbrev pub aes_iv_length : ℕ
aes_iv_length = 16

-- `config.hmacOptions.length`
abbrev pub hmac_options_length : Browser → ℕ
hmac_options_length browser = if browser.old_webkit then 20 else 160

abbrev pub rsa_length : ℕ
rsa_length = 2048

abbrev pub rsa_encrypt_hash_length : ℕ
rsa_encrypt_hash_length = 160

-- `get rsaEncryptMax()`
unfoldable pub rsa_encrypt_max : ℤ
rsa_encrypt_max = sub_ℕ (rsa_length / 8) (2 * rsa_encrypt_hash_length + 2)

abbrev pub pbkdf2_min_iterations : ℕ
pbkdf2_min_iterations = 20000

-- `config.hmacOptions`
pub record HmacOptions : Type 0 where
  pub name : String
  pub hash : String
  pub length : ℕ

-- `config.pbkdf2`
pub record Pbkdf2Config : Type 0 where
  pub min_iterations : ℕ
  pub hash : String

pub record ConfigObject : Type 0 where
  pub aes_cipher : String
  pub aes_length : ℕ
  pub aes_iv_length : ℕ
  pub hmac_options : HmacOptions
  pub rsa_length : ℕ
  pub rsa_encrypt_cipher : String
  pub rsa_encrypt_hash : String
  pub rsa_encrypt_hash_length : ℕ
  pub rsa_encrypt_max : ℤ
  pub rsa_sign_cipher : String
  pub rsa_sign_hash : String
  pub pbkdf2 : Pbkdf2Config

-- `config`, of which the operations read the members above. The names are constructors of
-- `WebCrypto.Algorithm` there.
abbrev pub config : Browser → ConfigObject
config browser = record {
  aes_cipher = "AES-CBC";
  aes_length = aes_length;
  aes_iv_length = aes_iv_length;
  hmac_options = record { name = "HMAC"; hash = "SHA-1"; length = hmac_options_length browser };
  rsa_length = rsa_length;
  rsa_encrypt_cipher = "RSA-OAEP";
  rsa_encrypt_hash = "SHA-1";
  rsa_encrypt_hash_length = rsa_encrypt_hash_length;
  rsa_encrypt_max = rsa_encrypt_max;
  rsa_sign_cipher = "RSASSA-PKCS1-v1_5";
  rsa_sign_hash = "SHA-256";
  pbkdf2 = record { min_iterations = pbkdf2_min_iterations; hash = "SHA-1" };
}
