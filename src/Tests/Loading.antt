-- ===== src/Tests/Loading.antt =====
-- app.js on a site that serves its modules.
use crypto_security_projects.Base.{
  ◌≡◌, ◌∙◌, refl, ap, List, [], ◌∷◌, String, Option, none, some, map, str_eq, if◌then◌else◌,
}
use crypto_security_projects.App.{start}
use crypto_security_projects.App.Loading.{
  Module, jquery_module, crypto_js_module, fingerprint2_module, unique_module, key_auth_module,
  client_unique, client_key_and_auth, RequireJs, Documented, path_of, Started, app, app-start,
}
use crypto_security_projects.Tests.App.{small, fingerprint2}

-- The modules, if all are there.
abbrev all : List (Option Module) → Option (List Module)
all [] = some []
all (none ∷ found) = none
all (some m ∷ found) = elim (all found) [ some modules ↦ some (m ∷ modules) | none ↦ none ]

all-some : (modules : List Module) → all (map some modules) ≡ some modules
all-some [] = refl
all-some (m ∷ modules) = rw (all-some modules) refl

abbrev served : String → String → Option Module
served base path =
    if str_eq path "jquery"
    then some jquery_module
    else if str_eq path "bower_components/crypto-js/crypto-js"
    then some (crypto_js_module small)
    else if str_eq path "bower_components/fingerprintjs2/fingerprint2"
    then some (fingerprint2_module fingerprint2)
    else if str_eq path "../app/clientUnique"
    then some (unique_module client_unique)
    else if str_eq path "../app/ClientKeyAndAuth"
    then some (key_auth_module client_key_and_auth)
    else none

-- The function is called if all modules are there.
abbrev called : (List Module → Option Started) → Option (List Module) → Option (Option Started)
called callback none = none
called callback (some modules) = some (callback modules)

abbrev require_js : RequireJs
require_js = record {
  served = served;
  require = λ loader ids callback.
      called callback (all (map (λ id. served loader.base_url (path_of loader id)) ids));
}

documented : Documented require_js
documented loader ids modules callback are_served =
    ap (λ found. called callback (all found)) are_served ∙ ap (called callback) (all-some modules)

app-start_example :
    app require_js ≡ some (some (record { crypto_js = small; client = start fingerprint2 small }))
app-start_example = app-start require_js small fingerprint2 documented refl refl refl refl refl
