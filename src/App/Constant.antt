-- ===== src/App/Constant.antt =====
-- What app.js derives does not depend on the client.
use crypto_security_projects.Base.{
  ℕ, ◌%◌, ◌<◌, ◌≡◌, ◌∙◌, refl, ap, sym, append-nil, arith, List, [], ◌∷◌, ◌++◌, append_assoc, map,
  take-length, All,
}
use crypto_security_projects.Js.{ok, bytes}
use crypto_security_projects.App.{
  Value, promise, words, bytes_of, CryptoJs, Fingerprint2, object_promise, char_codes, to_string,
  start, client_enc_iv, client_secret_key, client_mac, client_digest_for_transport,
  client_fp_for_transport,
}

module _ (crypto_js : CryptoJs) where
  open crypto_js use {Words}

  -- Where CryptoJS decodes the text "[object Promise]" to `w`, and `m` is its code of this text with
  -- this text as the key, app.js has the secret key `w`, the iv `w` too, and the code `m`: the
  -- functions turn the promises that they are given into text, so that neither the fingerprint nor
  -- the digest has a part in them.
  pub start_constant :
      (fingerprint2 : Fingerprint2) (w m : Words)
      → crypto_js.base64_parse object_promise ≡ ok w
      → crypto_js.hmac_sha512 object_promise object_promise ≡ ok m
      → ((start fingerprint2 crypto_js).client_secret_key ≡ promise (words w))
        × ((start fingerprint2 crypto_js).client_enc_iv ≡ promise (words w))
        × ((start fingerprint2 crypto_js).client_mac ≡ promise (words m))
  unfolding start client_secret_key client_enc_iv client_mac
  start_constant fingerprint2 w m decodes codes = (rw decodes refl, rw decodes refl, rw codes refl)

  char_codes_append : (units chars : List ℕ) → char_codes units chars ≡ chars ++ units
  char_codes_append [] chars = sym (append-nil chars)
  char_codes_append (unit ∷ units) chars =
      char_codes_append units (chars ++ (unit ∷ [])) ∙ append_assoc chars (unit ∷ []) units

  map-mod : (ns : List ℕ) → All (λ n. n < 256) ns → map (λ n. n % 256) ns ≡ ns
  map-mod [] h = refl
  map-mod (n ∷ ns) h = ground (arith, map-mod ns h.1)

  abbrev pub bytes_in : Value Words → List ℕ
  bytes_in (bytes_of source) = bytes source
  bytes_in _ = []

  -- For a value whose text has codes below 256 alone, `ClientFPforTransport` and
  -- `ClientDigestForTransport` give the same bytes, though one makes a Uint8Array and the other an
  -- Array: the codes of the text, in order.
  pub for_transport_lem :
      (value : Value Words)
      → All (λ n. n < 256) (to_string crypto_js value)
      → (bytes_in (client_fp_for_transport crypto_js value) ≡ to_string crypto_js value)
        × (bytes_in (client_digest_for_transport crypto_js value) ≡ to_string crypto_js value)
  unfolding client_fp_for_transport client_digest_for_transport
  for_transport_lem value small =
      let units = to_string crypto_js value in
      let codes : map (λ n. n % 256) (char_codes units []) ≡ units =
        ap (map (λ n. n % 256)) (char_codes_append units []) ∙ map-mod units small in
      (take-length (map (λ n. n % 256) (char_codes units [])) ∙ codes, codes)
