-- ===== src/Tests/App.antt =====
-- The application with a small CryptoJS.
use crypto_security_projects.Base.{
  ℕ, ◌≡◌, ◌≢◌, inr, refl, arith, Option, none, some, List, [], ◌∷◌, ◌++◌,
}
use crypto_security_projects.Js.{Attempt, ok, bytes}
use crypto_security_projects.App.{
  Value, promise, words, CryptoJs, Fingerprint2, object_promise, start, client_fp_for_transport,
  client_digest_for_transport,
}
use crypto_security_projects.App.KeyPairs.{
  Forge, private_key_line, public_key_line, reference_error, key_pair_ec, key_pair_rsa,
  client_assym,
}
use crypto_security_projects.Js.Objects.{lookup}
use crypto_security_projects.WebCrypto.{KeyPair}
use crypto_security_projects.App.RsaKeyPair.{
  JwCrypto, generate_key_pair, public_key, private_key, keys_lost,
}
use crypto_security_projects.App.Constant.{start_constant, for_transport_lem, bytes_in}

-- Words are their text, and a code is its key and its message.
abbrev pub small : CryptoJs
small = record {
  Words = List ℕ;
  sha512 = λ value. ok [];
  hmac_sha512 = λ message key. ok (key ++ message);
  base64_parse = λ units. ok units;
  words_to_string = λ w. w;
  bytes_to_text = λ source. bytes source;
}

abbrev pub fingerprint2 : Fingerprint2
fingerprint2 = record { components = []; x64hash128 = λ units seed. units }

start_constant_example :
    ((start fingerprint2 small).client_secret_key ≡ promise (words object_promise))
    × ((start fingerprint2 small).client_enc_iv ≡ promise (words object_promise))
    × ((start fingerprint2 small).client_mac ≡ promise (words (object_promise ++ object_promise)))
start_constant_example =
    start_constant small fingerprint2 object_promise (object_promise ++ object_promise) refl refl

abbrev value : Value (List ℕ)
value = words (97 ∷ 98 ∷ [])

for_transport_lem_example :
    (bytes_in small (client_fp_for_transport small value) ≡ 97 ∷ 98 ∷ [])
    × (bytes_in small (client_digest_for_transport small value) ≡ 97 ∷ 98 ∷ [])
for_transport_lem_example = for_transport_lem small value (omega arith, (omega arith, tt))

abbrev small_forge : Forge
small_forge = record {
  Key = ℕ;
  get_bytes_sync = λ n. ok [];
  ed25519_key_pair = λ seed. ok (record { public_key = 1; private_key = 2 });
  rsa_key_pair = λ bits. ok (some (record { public_key = 3; private_key = 4 }));
}

client_assym_lines :
    client_assym small_forge []
    ≡ reference_error "keypair" ∷ private_key_line 4 ∷ public_key_line 3 ∷ []
unfolding client_assym key_pair_ec key_pair_rsa lookup
client_assym_lines = refl

-- It calls the callback, as jwcrypto does, and takes no notice of the result.
abbrev ignored : Option (KeyPair ℕ) → Attempt (Unit {0})
ignored none = ok tt
ignored (some pair) = ok tt

abbrev small_jw_crypto : JwCrypto
small_jw_crypto = record {
  Key = ℕ;
  add_entropy = λ seed. ok tt;
  generate_keypair =
      λ size callback. ignored (callback none (some (record { public_key = 1; private_key = 2 })));
}

keys_lost_example :
    (public_key small_jw_crypto (some (generate_key_pair small_jw_crypto)) [] ≢ ok 1)
    × (private_key small_jw_crypto (some (generate_key_pair small_jw_crypto)) [] ≢ ok 1)
keys_lost_example =
    keys_lost small_jw_crypto (some (generate_key_pair small_jw_crypto)) [] 1 (inr refl)
