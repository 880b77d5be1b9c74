-- ===== src/App/Scripts.antt =====
-- The scripts of EmmaStreamingSolution/src/www/js/app that no page loads: clientAuthTokens.js,
-- encAuth.js, player.js, prims.js and ClientPrimSend.js, as the calls of `define` that they make.
use crypto_security_projects.Base.{
  ◌≡◌, List, [], ◌∷◌, String, Bool, true, false, str_eq, if◌then◌else◌,
}

-- The second argument of `define`: there is none, or it is a text.
pub data Dependencies : Type 0 where
  no_dependencies : Dependencies
  text : String → Dependencies

-- The last argument: an object of functions, by their names, or a function with its parameters.
pub data Definition : Type 0 where
  object : List String → Definition
  function : List String → Definition

pub record Define : Type 0 where
  pub id : String
  pub dependencies : Dependencies
  pub definition : Definition

-- What a script does when it is loaded.
pub data Script : Type 0 where
  defines : Define → Script
  -- A comma is missing between two properties of an object, or a declaration with `let` stands among
  -- them.
  does_not_parse : Script
  -- There is a comment alone.
  nothing : Script

abbrev pub client_auth_tokens : Script
client_auth_tokens = does_not_parse

abbrev pub enc_auth : Script
enc_auth = defines (record {
  id = "Encrypt_Auth";
  dependencies = text "['clientTokens', 'clientKeys']";
  definition = function ("clientTokens" ∷ "clientKeys" ∷ []);
})

abbrev pub player : Script
player = defines (record {
  id = "myPlayer";
  dependencies = text "[myTeam]";
  definition = function ("require" ∷ []);
})

abbrev pub prims : Script
prims = does_not_parse

abbrev pub client_prim_send : Script
client_prim_send = nothing

-- `define("clientUnique", { … })` and `define("ClientKeyAndAuth", { … })`
abbrev pub unique_script : Script
unique_script = defines (record {
  id = "clientUnique";
  dependencies = no_dependencies;
  definition = object (
      "ClientFingerPrint" ∷ "ClientFPforTransport" ∷ "ClientEncIV" ∷ "ClientEncIVForTransport"
      ∷ []);
})

abbrev pub key_auth_script : Script
key_auth_script = defines (record {
  id = "ClientKeyAndAuth";
  dependencies = no_dependencies;
  definition = object (
      "ClientDigest" ∷ "ClientDigestForTransport" ∷ "ClientSecretKey"
      ∷ "ClientSecretKeyForTransport" ∷ "ClientMAC" ∷ "ClientMACForTransport" ∷ []);
})

-- The scripts of the directory that have to do with RequireJS.
abbrev pub scripts : List Script
scripts =
    unique_script ∷ key_auth_script ∷ client_auth_tokens ∷ enc_auth ∷ player ∷ prims
    ∷ client_prim_send ∷ []

-- Whether a script defines the module.
unfoldable pub is_defined : List Script → String → Bool
is_defined [] id = false
is_defined (defines d ∷ rest) id = if str_eq d.id id then true else is_defined rest id
is_defined (does_not_parse ∷ rest) id = is_defined rest id
is_defined (nothing ∷ rest) id = is_defined rest id

-- What RequireJS does, a parameter: which modules are loaded. A module is loaded after a script has
-- defined it.
pub record Loading (all : List Script) : Type 1 where
  pub IsLoaded : String → Type 0
  pub loaded_defined : (id : String) → IsLoaded id → is_defined all id ≡ true

-- With these scripts alone, neither of the two modules is loaded whose scripts do not parse.
pub unparsed_lost :
    (loading : Loading scripts)
    → (¬ loading.IsLoaded "clientAuthTokens") × (¬ loading.IsLoaded "clientTokens")
unfolding is_defined
unparsed_lost loading = (
  λ loaded.
      let known : false ≡ true = loading.loaded_defined "clientAuthTokens" loaded in absurd (cc),
  λ loaded. let known : false ≡ true = loading.loaded_defined "clientTokens" loaded in absurd (cc),
)
