-- ===== src/Internal/Asym/Jwk/Settling.antt =====
-- Import and export of RSA keys call one of their callbacks, once, or throw at once.
use crypto_security_projects.Base.{
  arith, ℕ, Bool, true, false, List, [], ◌∷◌, ◌≡◌, ◌≢◌, if◌then◌else◌,
}
use crypto_security_projects.Js.{Exn, ok, stuck}
use crypto_security_projects.Config.{Browser}
use crypto_security_projects.Runtime.{Arg, Run, Failure, message, exn, attempt, catching}
use crypto_security_projects.Runtime.Settling.{
  Answers, Settles, if-Settles, attempt-Settles, catching-Answers, Answers-Settles,
}
use crypto_security_projects.WebCrypto.{Crypto, Json, KeyData, as_object, Usage, Algorithm}
use crypto_security_projects.Internal.Sym.Settling.{call-Settles}
use crypto_security_projects.Util.{bytes_to_string}
use crypto_security_projects.Internal.Asym.Jwk.{
  old, old_key_data, properties, exported_bytes, from_old_jwk, usage_names, import_key, export_key,
}

-- `JSON.parse` ends.
abbrev pub Ends : Json → Type 0
Ends json = (units : List ℕ) → json.parse units ≢ stuck

old_key_data-ne-stuck : (json : Json) (jwk : KeyData) → Ends json → old_key_data json jwk ≢ stuck
unfolding old_key_data
old_key_data-ne-stuck json jwk ends e =
    let units = json.stringify (properties jwk) in ground (arith, ends units)

module _ (browser : Browser) (promises : browser.has_then ≡ true) (json : Json) (ends : Ends json)
    (crypto : Crypto) {E : Type 0} where
  open crypto use {Key}

  pub import_key-Settles :
      (jwk : KeyData) (options : Algorithm) (usage : List Usage) (e : Failure Key E)
      (k : Key → Run Key E)
      → ((args : List Arg) → Answers (e args))
      → ((a : Key) → Settles (k a))
      → Settles (import_key browser json crypto jwk options usage e k)
  unfolding import_key
  import_key-Settles jwk options usage e k ea ks =
      attempt-Settles (if old browser then old_key_data json jwk else ok jwk) _
        (data-ne-stuck (old browser)) λ key_data. call-Settles browser promises crypto _ e k ea ks
    where
      data-ne-stuck : (b : Bool) → (if b then old_key_data json jwk else ok jwk) ≢ stuck
      data-ne-stuck true = old_key_data-ne-stuck json jwk ends
      data-ne-stuck false = λ same. cc

  pub export_key-Settles :
      (key : Key) (usage : List Usage) (e : Failure Key E) (k : KeyData → Run Key E)
      → ((args : List Arg) → Answers (e args))
      → ((a : KeyData) → Settles (k a))
      → Settles (export_key browser json crypto key usage e k)
  unfolding export_key
  export_key-Settles key usage e k ea ks = call-Settles browser promises crypto _ e _ ea λ jwk.
      let handler : Exn → Run Key E = λ x. e (message x ∷ exn x ∷ []) in
      let inner : Run Key E = attempt (json.parse (bytes_to_string (exported_bytes jwk))) λ fixed.
        k (as_object (from_old_jwk (usage_names usage) (crypto.algorithm_name key) fixed)) in
      let settled : Settles inner =
        attempt-Settles (json.parse (bytes_to_string (exported_bytes jwk))) _
          (ends (bytes_to_string (exported_bytes jwk)))
          (λ fixed.
            ks (as_object (from_old_jwk (usage_names usage) (crypto.algorithm_name key) fixed))) in
      if-Settles (old browser) (catching inner handler) (k jwk)
        (Answers-Settles (catching inner handler)
          (catching-Answers inner handler settled (λ x. ea _)))
        (ks jwk)
