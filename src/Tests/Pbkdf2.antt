-- ===== src/Tests/Pbkdf2.antt =====
-- Keys from a password in a browser of the tests that has HMAC but no PBKDF2.
use crypto_security_projects.Base.{
  ◌≡◌, ◌∙◌, ap, sym, true, ℕ, refl, arith, inl, none, List, [], ◌∷◌, ◌++◌, some, length-take,
  length-replicate, length-append, take, replicate,
}
use crypto_security_projects.Base.Int.{pos, ◌+ℤ◌}
use crypto_security_projects.Js.{Source, bytes, array_buffer, array, type_error}
use crypto_security_projects.Runtime.{Page, resolve, reject}
use crypto_security_projects.Runtime.Delivery.{Delivers}
use crypto_security_projects.WebCrypto.{Crypto, Algorithm}
use crypto_security_projects.Util.{string_to_bytes, sum_bytes}
use crypto_security_projects.Internal.Pbkdf2.{Options, number, held, given_iterations}
use crypto_security_projects.Internal.Pbkdf2.Compat.{HmacOf}
use crypto_security_projects.WebCrypto.Laws.{Interop}
use crypto_security_projects.Sym.Password.{
  WithPassword, encrypt_with_password, decrypt_with_password,
}
use crypto_security_projects.Sym.Password.RoundTrip.{decrypt_with_password-encrypt_with_password}
use crypto_security_projects.Tests.Toy.{toy, same_bytes, same_bytes_refl, toy_browser, start, Shown}

-- 20 bytes of the key and the message.
abbrev mix : List ℕ → List ℕ → List ℕ
mix key message = take 20 (key ++ message ++ replicate 20 0)

abbrev without_pbkdf2 : Crypto
without_pbkdf2 = record toy {
  import_raw = λ t raw algorithm extractable usages. elim algorithm [
    | Algorithm.pbkdf2 ↦ reject type_error
    | _ ↦ resolve (bytes raw)
  ];
  sign = λ t algorithm key message. resolve (mix key (bytes message));
  verify =
      λ t algorithm key mac message. resolve (same_bytes (bytes mac) (mix key (bytes message)));
  random_uint16 = λ t. 0;
}

abbrev password : List ℕ
password = 104 ∷ 117 ∷ 110 ∷ []

abbrev prf : List ℕ → List ℕ
prf = mix password

mac : HmacOf without_pbkdf2 password prf
unfolding string_to_bytes
mac = record {
  key = λ t. password;
  imported = λ t. refl;
  computes = λ t u message defined. refl;
  sized = λ bs. omega (
    arith,
    length-take 20 (password ++ bs ++ replicate 20 0),
    length-append password (bs ++ replicate 20 0),
    length-append bs (replicate 20 0),
  );
}

abbrev salt : Source
salt = array_buffer (1 ∷ 2 ∷ [])

abbrev options : Options
options = record { salt = some salt; iterations = number 3 }

mix_verifies :
    (key other raw code message message' : List ℕ)
    → key ≡ raw
    → other ≡ raw
    → code ≡ mix key message
    → message' ≡ message
    → same_bytes code (mix other message') ≡ true
mix_verifies key other raw code message message' k o m same =
    ap (λ (bs : List ℕ). same_bytes bs (mix other message'))
      (m
        ∙ ap (λ (ks : List ℕ). mix ks message) (k ∙ sym o)
        ∙ ap (λ (ms : List ℕ). mix other ms) (sym same))
    ∙ same_bytes_refl (mix other message')

abbrev laws : Interop without_pbkdf2 160
laws = record {
  IsAes = λ key raw. key ≡ raw;
  IsHmac = λ key raw. key ≡ raw;
  import_aes = λ t raw sized. (bytes raw, refl, refl);
  import_hmac = λ t raw sized. (bytes raw, refl, refl);
  aes_cbc_inverse = λ t key raw iv message is_aes sized defined.
      (bytes message, refl, λ u other iv' cipher' is_other same_iv same. ap resolve same);
  hmac_verifies = λ t key raw message is_hmac defined. (
    mix key (bytes message),
    refl,
    λ u other mac' message' is_other same_mac same. ap resolve (
        mix_verifies key other raw (bytes mac') (bytes message) (bytes message') is_hmac is_other
          same_mac same),
  );
  length-random_bytes = λ t n. length-replicate n t;
}

password_example :
    (sealed : WithPassword) × (q : Page (List ℕ) Shown) × Delivers
      (encrypt_with_password toy_browser without_pbkdf2 password salt)
      start
      sealed
      q
    × ((r : Page (List ℕ) Shown)
        → (s : Page (List ℕ) Shown) × Delivers
            (decrypt_with_password toy_browser without_pbkdf2 password sealed)
            r
            (bytes salt)
            s)
password_example =
    decrypt_with_password-encrypt_with_password toy_browser without_pbkdf2 laws password prf mac
      (λ t. (type_error, inl refl)) (λ t. omega arith) salt start (λ e. cc)

-- Four bytes in a plain Array are no number, which no counter reaches; in a buffer they are 1.
count_in_array : given_iterations (held (array (1 ∷ 0 ∷ 0 ∷ 0 ∷ []))) ≡ some none
unfolding given_iterations
count_in_array = refl

count_in_buffer : given_iterations (held (array_buffer (1 ∷ 0 ∷ 0 ∷ 0 ∷ []))) ≡ some (some (pos 1))
unfolding given_iterations sum_bytes ◌+ℤ◌
count_in_buffer = refl
