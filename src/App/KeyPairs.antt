-- ===== src/App/KeyPairs.antt =====
-- app/clientAssym.js: it makes key pairs with forge and prints them.
use crypto_security_projects.Base.{ℕ, List, [], ◌∷◌, ◌++◌, String, Option, none, some}
use crypto_security_projects.Js.{Exn, Attempt, ok, throw, stuck, ◌>>=◌, type_error}
use crypto_security_projects.Js.Objects.{lookup}
use crypto_security_projects.WebCrypto.{KeyPair}

-- What is printed, and the exceptions that nothing catches.
pub data Line (K : Type 0) : Type 0 where
  private_key_line : K → Line K
  public_key_line : K → Line K
  caught : Exn → Line K
  -- A name that is not defined.
  reference_error : String → Line K
  uncaught : Exn → Line K

-- The variables that hold key pairs, by their names: those of the function first, then those of the
-- page.
abbrev pub Scope : Type 0 → Type 0
Scope K = List (String × KeyPair K)

-- forge, a parameter: random bytes, a key pair of ed25519 from a seed, and the key pair of RSA that
-- it hands to a callback, which gets none where the generation fails.
pub record Forge : Type 1 where
  pub Key : Type 0
  pub get_bytes_sync : ℕ → Attempt (List ℕ)
  pub ed25519_key_pair : List ℕ → Attempt (KeyPair Key)
  pub rsa_key_pair : ℕ → Attempt (Option (KeyPair Key))

-- The four lines of code that read the two keys of a pair and print them.
abbrev pub print_pair : {K : Type 0} → KeyPair K → List (Line K)
print_pair pair = private_key_line pair.private_key ∷ public_key_line pair.public_key ∷ []

module _ (forge : Forge) (page : Scope forge.Key) where
  open forge use {Key}

  -- The value of a variable; where there is none, the ReferenceError is caught and printed.
  abbrev pub print_variable : String → Scope Key → List (Line Key)
  print_variable name scope = elim (lookup name scope) [
    | some pair ↦ print_pair pair
    | none ↦ reference_error name ∷ []
  ]

  -- The pair is the variable `keyPair`, and the code reads `keypair`.
  abbrev pub print_ec : Attempt (KeyPair Key) → List (Line Key)
  print_ec (ok key_pair) = print_variable "keypair" (("keyPair", key_pair) ∷ page)
  print_ec (throw x) = caught x ∷ []
  print_ec stuck = []

  unfoldable pub key_pair_ec : List (Line Key)
  key_pair_ec = print_ec (do seed ← forge.get_bytes_sync 32; forge.ed25519_key_pair seed)

  -- The callback runs after the `try` block.
  abbrev pub print_rsa : Attempt (Option (KeyPair Key)) → List (Line Key)
  print_rsa (ok (some pair)) = print_pair pair
  print_rsa (ok none) = uncaught type_error ∷ []
  print_rsa (throw x) = caught x ∷ []
  print_rsa stuck = []

  unfoldable pub key_pair_rsa : List (Line Key)
  key_pair_rsa = print_rsa (forge.rsa_key_pair 2048)

  -- The script calls the one and then the other.
  unfoldable pub client_assym : List (Line Key)
  client_assym = key_pair_ec ++ key_pair_rsa

-- The lines with keys.
abbrev pub key_lines : {K : Type 0} → List (Line K) → List (Line K)
key_lines [] = []
key_lines (private_key_line k ∷ lines) = private_key_line k ∷ key_lines lines
key_lines (public_key_line k ∷ lines) = public_key_line k ∷ key_lines lines
key_lines (caught x ∷ lines) = key_lines lines
key_lines (reference_error name ∷ lines) = key_lines lines
key_lines (uncaught x ∷ lines) = key_lines lines
