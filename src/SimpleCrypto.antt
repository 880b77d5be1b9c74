-- ===== src/SimpleCrypto.antt =====
-- simplecrypto.js of EmmaStreamingSolution/src/www/js/lib as a whole: the factory that makes
-- `simpleCrypto` of what the page's `window` offers, and the lines that hand it to a loader.
pub mod Internal
pub mod Public
pub mod Refusal
pub mod Missing
pub mod Register
use crypto_security_projects.Base.{
  ℕ, List, [], Bool, true, false, ◌&&◌, if◌then◌else◌, Option, none, some, inl, replicate,
}
use crypto_security_projects.Js.{Attempt, ok, throw, ◌>>=◌, type_error}
use crypto_security_projects.Config.{Browser}
use crypto_security_projects.Runtime.{Settled, refuse}
use crypto_security_projects.WebCrypto.{Crypto, Json}
use crypto_security_projects.IndexedDb.{IndexedDb}
use crypto_security_projects.Environment.{
  Window, is_defined, old_webkit, old_ie, crypto_subtle, indexed_db_object,
}
use crypto_security_projects.SimpleCrypto.Internal.{UtilObject, util, InternalObject, internal}
use crypto_security_projects.SimpleCrypto.Public.{
  StorageObject, storage, AsymObject, asym, SymObject, sym, Pbkdf2Object, pbkdf2, PackObject, pack,
}

-- `simpleCrypto`, with keys `K`, stored values `V`, databases `T` and events `E`.
pub record SimpleCrypto (K V T E : Type 0) : Type 0 where
  pub storage : StorageObject V T E
  pub asym : AsymObject K E
  pub sym : SymObject K E
  pub pbkdf2 : Pbkdf2Object K E
  pub pack : PackObject
  pub util : UtilObject
  pub internal : InternalObject K E

-- What the browser's objects do, a parameter: the operations of a WebCrypto interface, and whether
-- they return promises; the random numbers; JSON; and the databases.
pub record Natives (S D V : Type 0) : Type 1 where
  pub interface : S → Crypto
  pub has_then : S → Bool
  pub random_bytes : ℕ → ℕ → List ℕ
  pub random_uint16 : ℕ → ℕ
  pub json : Json
  pub database : D → IndexedDb V

-- Where `_cryptoSubtle` is `undefined`, each use of it throws. There are no keys. (An operation of
-- `internal.sym` that is given no key rejects before it asks for this interface.)
abbrev pub without_interface : (ℕ → ℕ → List ℕ) → (ℕ → ℕ) → Crypto
without_interface bytes uint16 = record {
  Key = Unit;
  generate_key = λ t algorithm extractable usages. refuse type_error;
  import_raw = λ t raw algorithm extractable usages. refuse type_error;
  export_raw = λ t key. refuse type_error;
  generate_key_pair = λ t algorithm extractable usages. refuse type_error;
  import_jwk = λ t jwk algorithm extractable usages. refuse type_error;
  export_jwk = λ t key. refuse type_error;
  algorithm_name = λ key. "";
  encrypt = λ t algorithm key message. refuse type_error;
  decrypt = λ t algorithm key cipher. refuse type_error;
  sign = λ t algorithm key message. refuse type_error;
  verify = λ t algorithm key mac message. refuse type_error;
  derive_bits = λ t algorithm key n. refuse type_error;
  random_bytes = bytes;
  random_uint16 = uint16;
}

-- Where `_indexedDB` is `undefined`, opening a database throws.
abbrev pub without_database : {V : Type 0} → IndexedDb V
without_database = record {
  State = Unit;
  Connection = Unit;
  Transaction = Unit;
  open_database = λ name version upgrade s. (refuse type_error, s);
  create_object_store = λ c name s. s;
  close = λ c s. s;
  transaction = λ c name mode s. (inl type_error, s);
  put = λ t name value key s. (refuse type_error, s);
  get = λ t name key s. (refuse type_error, s);
  delete = λ t name key s. (refuse type_error, s);
  abort = λ t s. s;
}

-- What the factory returns, with the interface and the databases that it works with.
pub record Library (V E : Type 0) : Type 1 where
  pub crypto : Crypto
  pub db : IndexedDb V
  pub simple_crypto : SimpleCrypto crypto.Key V db.State E

module _ {S D V : Type 0} (natives : Natives S D V) where
  -- The calls of `_cryptoSubtle` and of `_crypto.getRandomValues`.
  abbrev pub crypto_of : Option S → Crypto
  crypto_of none = without_interface natives.random_bytes natives.random_uint16
  crypto_of (some s) = record (natives.interface s) {
    random_bytes = natives.random_bytes;
    random_uint16 = natives.random_uint16;
  }

  abbrev pub database_of : Option D → IndexedDb V
  database_of none = without_database
  database_of (some d) = natives.database d

  abbrev pub then_of : Option S → Bool
  then_of none = false
  then_of (some s) = natives.has_then s

  abbrev pub browser_of : Window S D → Option S → Browser
  browser_of window subtle = record {
    old_webkit = old_webkit window;
    old_ie = old_ie window;
    has_then = then_of subtle;
  }

  -- `var simpleCrypto = { … }`, `simpleCrypto.util` and `simpleCrypto.internal`.
  abbrev pub simple_crypto :
      {E : Type 0} (browser : Browser) (crypto : Crypto) (db : IndexedDb V)
      → SimpleCrypto crypto.Key V db.State E
  simple_crypto browser crypto db = record {
    storage = storage db;
    asym = asym browser natives.json crypto;
    sym = sym browser natives.json crypto;
    pbkdf2 = pbkdf2 browser natives.json crypto;
    pack = pack;
    util = util;
    internal = internal browser natives.json crypto;
  }

  abbrev pub library_of : {E : Type 0} → Window S D → Option S → Library V E
  library_of window subtle =
      let crypto = crypto_of subtle in
      let db = database_of (indexed_db_object window) in
      record {
        crypto = crypto;
        db = db;
        simple_crypto = simple_crypto (browser_of window subtle) crypto db;
      }

  unfoldable pub factory : {E : Type 0} → Window S D → Attempt (Library V E)
  factory window = do subtle ← crypto_subtle window; ok (library_of window subtle)

-- What the script looks at to find a loader: whether `define` is a function and has `amd`, and
-- whether `module` is an object and has `exports`.
pub record Globals : Type 0 where
  pub define_is_function : Bool
  pub define_amd : Bool
  pub module_is_object : Bool
  pub module_exports : Bool

-- Where the library is put: with AMD the loader gets the factory, and calls it later.
pub data Registered {ℓ} (A : Type ℓ) : Type ℓ where
  defined : Attempt A → Registered A
  exported : A → Registered A
  global : A → Registered A

unfoldable pub register {ℓ} : {A : Type ℓ} → Globals → Attempt A → Attempt (Registered A)
register globals made =
    if globals.define_is_function && globals.define_amd
    then ok (defined made)
    else if globals.module_is_object && globals.module_exports
    then (do a ← made; ok (exported a))
    else do a ← made; ok (global a)
