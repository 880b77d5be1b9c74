-- ===== src/Transport.antt =====
-- Messages that are packed with `pack.encode`, sent, and unpacked with `pack.decode`: the objects that
-- `sym.encrypt` and `asym.encryptAndSign` hand out, as dictionaries.
pub mod Fields
pub mod Sealed
pub mod Signed
use crypto_security_projects.Base.{List, [], ◌∷◌, String, Option, none, some}
use crypto_security_projects.Js.{Source}
use crypto_security_projects.Js.Objects.{lookup}
use crypto_security_projects.Pack.{Dict}
use crypto_security_projects.Sym.{Encrypted, property}
use crypto_security_projects.Asym.{Message}

-- The properties of `{aesEncrypted, hmac}`, in their order.
abbrev pub dict_of_encrypted : Encrypted → Dict
dict_of_encrypted encrypted =
    ("aesEncrypted", encrypted.aes_encrypted) ∷ ("hmac", encrypted.hmac) ∷ []

-- An unpacked dictionary, as `sym.decrypt` reads it.
unfoldable pub encrypted_of_dict : Dict → Encrypted
encrypted_of_dict dict = record {
  aes_encrypted = property (lookup "aesEncrypted" dict);
  hmac = property (lookup "hmac" dict);
}

-- A property that the object may lack.
abbrev pub optional : String → Option Source → Dict → Dict
optional label none dict = dict
optional label (some value) dict = (label, value) ∷ dict

-- The properties of what `asym.encrypt` and `asym.encryptAndSign` hand out, in the order in which
-- they are set.
abbrev pub dict_of_message : Message → Dict
dict_of_message message =
    ("rsaEncrypted", message.rsa_encrypted)
    ∷ optional "signatureOfData" message.signature_of_data (
        optional "signatureOfEncrypted" message.signature_of_encrypted
          (optional "aesEncrypted" message.aes_encrypted (optional "hmac" message.hmac [])))

-- An unpacked dictionary, as `asym.decrypt` and `asym.verifyAndDecrypt` read it.
unfoldable pub message_of_dict : Dict → Message
message_of_dict dict = record {
  rsa_encrypted = property (lookup "rsaEncrypted" dict);
  aes_encrypted = lookup "aesEncrypted" dict;
  hmac = lookup "hmac" dict;
  signature_of_data = lookup "signatureOfData" dict;
  signature_of_encrypted = lookup "signatureOfEncrypted" dict;
}
