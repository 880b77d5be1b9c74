-- ===== src/App/Loading.antt =====
-- How app.js is loaded: the modules that app/clientUnique.js and app/ClientKeyAndAuth.js define, the
-- configuration of RequireJS, and the function that app.js hands to it.
use crypto_security_projects.Base.{ℕ, ◌≡◌, refl, map, List, [], ◌∷◌, String, Option, none, some}
use crypto_security_projects.Js.Objects.{lookup}
use crypto_security_projects.App.{
  Value, promise, CryptoJs, Fingerprint2, Client, client_finger_print, client_fp_for_transport,
  client_enc_iv, client_enc_iv_for_transport, client_digest, client_digest_for_transport,
  client_secret_key, client_secret_key_for_transport, client_mac, client_mac_for_transport, start,
}

-- `define("clientUnique", { … })`. The functions take CryptoJS, of which those that have no such
-- argument need the type of a value alone.
pub record ClientUnique : Type 1 where
  pub finger_print : (c : CryptoJs) → Fingerprint2 → Value c.Words × List ℕ
  pub fp_for_transport : (c : CryptoJs) → Value c.Words → Value c.Words
  pub enc_iv : (c : CryptoJs) → Value c.Words → Value c.Words
  pub enc_iv_for_transport : (c : CryptoJs) → Value c.Words → Value c.Words

abbrev pub client_unique : ClientUnique
client_unique = record {
  finger_print = λ c. client_finger_print c;
  fp_for_transport = λ c. client_fp_for_transport c;
  enc_iv = λ c. client_enc_iv c;
  enc_iv_for_transport = λ c. client_enc_iv_for_transport c;
}

-- `define("ClientKeyAndAuth", { … })`
pub record ClientKeyAndAuth : Type 1 where
  pub digest : (c : CryptoJs) → Value c.Words → Value c.Words
  pub digest_for_transport : (c : CryptoJs) → Value c.Words → Value c.Words
  pub secret_key : (c : CryptoJs) → Value c.Words → Value c.Words
  pub secret_key_for_transport : (c : CryptoJs) → Value c.Words → Value c.Words
  pub mac : (c : CryptoJs) → Value c.Words → Value c.Words → Value c.Words
  pub mac_for_transport : (c : CryptoJs) → Value c.Words → Value c.Words

abbrev pub client_key_and_auth : ClientKeyAndAuth
client_key_and_auth = record {
  digest = λ c. client_digest c;
  digest_for_transport = λ c. client_digest_for_transport c;
  secret_key = λ c. client_secret_key c;
  secret_key_for_transport = λ c. client_secret_key_for_transport c;
  mac = λ c. client_mac c;
  mac_for_transport = λ c. client_mac_for_transport c;
}

-- The argument of `require.config`.
pub record LoaderConfig : Type 0 where
  pub base_url : String
  pub paths : List (String × String)

abbrev pub config : LoaderConfig
config = record {
  base_url = "js/lib";
  paths =
      ("crypto-js", "bower_components/crypto-js/crypto-js")
      ∷ ("fingerprintjs2", "bower_components/fingerprintjs2/fingerprint2")
      ∷ ("clientUnique", "../app/clientUnique")
      ∷ ("ClientKeyAndAuth", "../app/ClientKeyAndAuth")
      ∷ [];
}

-- What a script gives to RequireJS.
pub data Module : Type 1 where
  -- jQuery, which calls a function that it is given when the document is ready.
  jquery_module : Module
  crypto_js_module : CryptoJs → Module
  fingerprint2_module : Fingerprint2 → Module
  unique_module : ClientUnique → Module
  key_auth_module : ClientKeyAndAuth → Module
  other_module : Module

-- CryptoJS as it was loaded, and what the handler of the document has computed with it.
pub record Started : Type 1 where
  pub crypto_js : CryptoJs
  pub client : Client crypto_js.Words

-- The handler of the document, with the modules that it calls.
abbrev pub main : (c : CryptoJs) → Fingerprint2 → ClientUnique → ClientKeyAndAuth → Client c.Words
main c f u k =
    let fp = promise (u.finger_print c f).0 in
    let digest = promise (k.digest c fp) in
    let secret_key = promise (k.secret_key c digest) in
    record {
      client_fp = fp;
      client_enc_iv = promise (u.enc_iv c fp);
      client_digest = digest;
      client_secret_key = secret_key;
      client_mac = promise (k.mac c digest secret_key);
    }

abbrev pub dependencies : List String
dependencies = "jquery" ∷ "crypto-js" ∷ "fingerprintjs2" ∷ "clientUnique" ∷ "ClientKeyAndAuth" ∷ []

-- The function for the five modules: it takes them by their places. With modules of other kinds
-- there is nothing here, for their calls are not modelled.
unfoldable pub with_modules : List Module → Option Started
with_modules
      (jquery_module
        ∷ crypto_js_module c
        ∷ fingerprint2_module f
        ∷ unique_module u
        ∷ key_auth_module k
        ∷ []) =
    some (record { crypto_js = c; client = main c f u k })
with_modules _ = none

-- RequireJS, a parameter: the module of the script at a path below a base, and `require`, which
-- gives what the function that it is handed returns, if it calls this function.
pub record RequireJs : Type 1 where
  pub served : String → String → Option Module
  pub require :
      LoaderConfig → List String → (List Module → Option Started) → Option (Option Started)

-- "paths" says where a module is; a module without an entry has its ID as its path.
abbrev pub path_of : LoaderConfig → String → String
path_of loader id = elim (lookup id loader.paths) [ some path ↦ path | none ↦ id ]

-- Each of the IDs has the module at its place.
abbrev pub AreServed : RequireJs → LoaderConfig → List String → List Module → Type 1
AreServed require_js loader ids modules =
    map (λ id. require_js.served loader.base_url (path_of loader id)) ids ≡ map some modules

-- The documented behaviour: the function is called with the modules, in the order of their IDs.
abbrev pub Documented : RequireJs → Type 1
Documented require_js =
    (loader : LoaderConfig) (ids : List String) (modules : List Module)
    (callback : List Module → Option Started)
    → AreServed require_js loader ids modules
    → require_js.require loader ids callback ≡ some (callback modules)

-- app.js
unfoldable pub app : RequireJs → Option (Option Started)
app require_js = require_js.require config dependencies with_modules

-- Where RequireJS behaves as documented, and the site serves jQuery, CryptoJS and Fingerprint2 below
-- js/lib and the two modules of the application in js/app, app.js calls the functions of these
-- modules with the libraries in their places: it computes the five values of `start`.
pub app-start :
    (require_js : RequireJs) (c : CryptoJs) (f : Fingerprint2)
    → Documented require_js
    → require_js.served "js/lib" "jquery" ≡ some jquery_module
    → require_js.served "js/lib" "bower_components/crypto-js/crypto-js" ≡ some (crypto_js_module c)
    → require_js.served "js/lib" "bower_components/fingerprintjs2/fingerprint2"
      ≡ some (fingerprint2_module f)
    → require_js.served "js/lib" "../app/clientUnique" ≡ some (unique_module client_unique)
    → require_js.served "js/lib" "../app/ClientKeyAndAuth"
      ≡ some (key_auth_module client_key_and_auth)
    → app require_js ≡ some (some (record { crypto_js = c; client = start f c }))
unfolding app with_modules start lookup
app-start require_js c f documented has_jquery has_crypto_js has_fingerprint2 has_unique
      has_key_auth =
    documented config dependencies
      (jquery_module
        ∷ crypto_js_module c
        ∷ fingerprint2_module f
        ∷ unique_module client_unique
        ∷ key_auth_module client_key_and_auth
        ∷ [])
      with_modules (rw (has_jquery, has_crypto_js, has_fingerprint2, has_unique, has_key_auth) refl)
