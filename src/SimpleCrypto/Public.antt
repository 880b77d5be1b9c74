-- ===== src/SimpleCrypto/Public.antt =====
-- The objects `simpleCrypto.storage`, `asym`, `sym`, `pbkdf2` and `pack` of simplecrypto.js.
use crypto_security_projects.Base.{ℕ, List, String, Option}
use crypto_security_projects.Js.{Attempt, Source}
use crypto_security_projects.Config.{Browser}
use crypto_security_projects.Runtime.{Run, Failure, Arg}
use crypto_security_projects.WebCrypto.{Crypto, KeyData, Json}
use crypto_security_projects.IndexedDb.{IndexedDb}
use crypto_security_projects.Storage.{Task}
use crypto_security_projects.Storage as DbUtil
use crypto_security_projects.KeyStorage as KeyStorage
use crypto_security_projects.Internal.Pbkdf2.{Options, Derived}
use crypto_security_projects.Asym as Asym
use crypto_security_projects.Asym.{Message}
use crypto_security_projects.Asym.Keys as AsymKeys
use crypto_security_projects.Asym.Keys.{RsaKeys, Generated}
use crypto_security_projects.Sym as Sym
use crypto_security_projects.Sym.{Encrypted}
use crypto_security_projects.Sym.Password.{
  WithPassword, encrypt_with_password, decrypt_with_password,
}
use crypto_security_projects.Pbkdf2.{derive}
use crypto_security_projects.Pack as Pack
use crypto_security_projects.Pack.{Dict}
use crypto_security_projects.SimpleCrypto.Internal.{Callbacks, Signals}

-- What follows the arguments of an operation of the storage, whose callback takes a value or none.
abbrev pub Stores : Type 0 → Type 0 → Type 0 → Type 0
Stores V S E = (List Arg → Task S E) → (Option V → Task S E) → Task S E

-- `dbUtil` and `simpleCrypto.storage` have these operations.
pub record StorageObject (V S E : Type 0) : Type 0 where
  pub put : String → V → Stores V S E
  pub get : String → Stores V S E
  pub delete : String → Stores V S E

pub record AsymObject (K E : Type 0) : Type 0 where
  pub generate_keys : Callbacks K E (Generated K)
  pub import_encrypt_key : KeyData → KeyData → Callbacks K E (RsaKeys K)
  pub import_encrypt_private_key : KeyData → Callbacks K E K
  pub import_encrypt_public_key : KeyData → Callbacks K E K
  pub generate_encrypt_key : Callbacks K E (RsaKeys K)
  pub generate_sign_key : Callbacks K E (RsaKeys K)
  pub decrypt : K → Message → Callbacks K E (List ℕ)
  pub verify_and_decrypt : K → K → Message → Callbacks K E (List ℕ)
  pub encrypt : K → Source → Callbacks K E Message
  pub encrypt_and_sign : K → K → Source → Callbacks K E Message

-- A keys object is given by its address.
pub record SymObject (K E : Type 0) : Type 0 where
  pub generate_keys : Callbacks K E ℕ
  pub import_keys : ℕ → Signals K E
  pub gen_keys_and_encrypt : Source → Failure K E → (ℕ → Encrypted → Run K E) → Run K E
  pub encrypt : ℕ → Source → Callbacks K E Encrypted
  pub encrypt_with_password : List ℕ → Source → Callbacks K E WithPassword
  pub decrypt : ℕ → Encrypted → Callbacks K E (List ℕ)
  pub decrypt_with_password : List ℕ → WithPassword → Callbacks K E (List ℕ)

pub record Pbkdf2Object (K E : Type 0) : Type 0 where
  pub derive : List ℕ → ℕ → Options → Callbacks K E Derived

pub record PackObject : Type 0 where
  pub version : ℕ
  pub label_to_index : List (String × ℕ)
  pub index_to_label : List (ℕ × String)
  pub encode : Dict → Attempt (List ℕ)
  pub decode : Source → Attempt Dict

module _ {V : Type 0} (db : IndexedDb V) {E : Type 0} where
  open db use {State}

  abbrev pub db_util : StorageObject V State E
  db_util = record { put = DbUtil.put db; get = DbUtil.get db; delete = DbUtil.delete db }

  abbrev pub storage : StorageObject V State E
  storage = record {
    put = KeyStorage.put db;
    get = KeyStorage.get db;
    delete = KeyStorage.delete db;
  }

module _ (browser : Browser) (json : Json) (crypto : Crypto) {E : Type 0} where
  open crypto use {Key}

  abbrev pub asym : AsymObject Key E
  asym = record {
    generate_keys = AsymKeys.generate_keys browser json crypto;
    import_encrypt_key = AsymKeys.import_encrypt_key browser json crypto;
    import_encrypt_private_key = AsymKeys.import_encrypt_private_key browser json crypto;
    import_encrypt_public_key = AsymKeys.import_encrypt_public_key browser json crypto;
    generate_encrypt_key = AsymKeys.generate_encrypt_key browser json crypto;
    generate_sign_key = AsymKeys.generate_sign_key browser json crypto;
    decrypt = Asym.decrypt browser crypto;
    verify_and_decrypt = Asym.verify_and_decrypt browser crypto;
    encrypt = Asym.encrypt browser crypto;
    encrypt_and_sign = Asym.encrypt_and_sign browser crypto;
  }

  abbrev pub sym : SymObject Key E
  sym = record {
    generate_keys = Sym.generate_keys browser crypto;
    import_keys = Sym.import_keys browser crypto;
    gen_keys_and_encrypt = Sym.gen_keys_and_encrypt browser crypto;
    encrypt = Sym.encrypt browser crypto;
    encrypt_with_password = encrypt_with_password browser crypto;
    decrypt = Sym.decrypt browser crypto;
    decrypt_with_password = decrypt_with_password browser crypto;
  }

  abbrev pub pbkdf2 : Pbkdf2Object Key E
  pbkdf2 = record { derive = derive browser crypto }

abbrev pub pack : PackObject
pack = record {
  version = Pack.version;
  label_to_index = Pack.label_to_index;
  index_to_label = Pack.index_to_label;
  encode = Pack.encode;
  decode = Pack.decode;
}
