-- ===== src/Internal/Asym/Jwk/Members.antt =====
-- What the renaming of the members of a JSON Web Key keeps.
use crypto_security_projects.Base.{
  ◌≡◌, ◌≢◌, ◌∙◌, refl, arith, List, String, none, some, Option-cases, Bool-cases, inl, inr, str_eq,
  str_eq_iff, if◌then◌else◌,
}
use crypto_security_projects.Js.Objects.{differ, lookup, has_own, lookup-put, lookup-remove}
use crypto_security_projects.WebCrypto.{Jwk, Member, text, texts}
use crypto_security_projects.Internal.Asym.Jwk.{rename, default, to_old_jwk, from_old_jwk}

lookup-rename-none :
    (from to name : String) (jwk : Jwk)
    → lookup from jwk ≡ none
    → lookup name (rename from to jwk) ≡ lookup name jwk
unfolding rename
lookup-rename-none from to name jwk lacks = rw (rename, lacks)

lookup-rename-some :
    (from to name : String) (jwk : Jwk) (value : Member)
    → lookup from jwk ≡ some value
    → lookup name (rename from to jwk)
      ≡ (if str_eq from name then none else if str_eq to name then some value else lookup name jwk)
unfolding rename
lookup-rename-some from to name jwk value there =
    rw (rename, there) (simp (lookup-remove, lookup-put))

lookup-default :
    (member name : String) (value : Member) (jwk : Jwk)
    → lookup name (default member value jwk) ≡ (
        if str_eq member name
        then (elim (lookup member jwk) [ some v ↦ some v | none ↦ some value ])
        else lookup name jwk)
unfolding default has_own
lookup-default member name value jwk =
    ground (arith, lookup-put member name value jwk, str_eq_iff member name)

lookup-from_old_jwk :
    (usage : List String) (algorithm name : String) (jwk : Jwk)
    → "alg" ≢ name
    → "key_ops" ≢ name
    → lookup name (from_old_jwk usage algorithm jwk) ≡ lookup name (rename "extractable" "ext" jwk)
unfolding from_old_jwk
lookup-from_old_jwk usage algorithm name jwk not_alg not_key_ops =
    let renamed = rename "extractable" "ext" jwk in
    let inner = default "key_ops" (texts usage) renamed in
    ground (
      arith,
      lookup-default "alg" name (text algorithm) inner,
      lookup-default "key_ops" name (texts usage) renamed,
      str_eq_iff "alg" name,
      str_eq_iff "key_ops" name,
    )

lookup-to_old_jwk :
    (name : String) (jwk : Jwk)
    → lookup name (to_old_jwk jwk)
      ≡ (if str_eq "key_ops" name then none else lookup name (rename "ext" "extractable" jwk))
unfolding to_old_jwk has_own
lookup-to_old_jwk name jwk =
    let renamed = rename "ext" "extractable" jwk in
    ground (arith, lookup-remove "key_ops" name renamed, str_eq_iff "key_ops" name)

-- Renaming a member and renaming it back.
module _ (usage : List String) (algorithm name : String) (jwk : Jwk) (not_alg : "alg" ≢ name)
    (not_key_ops : "key_ops" ≢ name) (no_ext : lookup "ext" jwk ≡ none) where
  abbrev standard : Jwk
  standard = from_old_jwk usage algorithm jwk

  ext_of_standard : lookup "ext" standard ≡ lookup "ext" (rename "extractable" "ext" jwk)
  ext_of_standard =
      lookup-from_old_jwk usage algorithm "ext" jwk (differ "alg" "ext" refl)
        (differ "key_ops" "ext" refl)

  rename-rename : lookup name (rename "ext" "extractable" standard) ≡ lookup name jwk
  rename-rename = elim (Option-cases (lookup "extractable" jwk)) [
    | inl lacks ↦
        lookup-rename-none "ext" "extractable" name standard
          (ext_of_standard ∙ lookup-rename-none "extractable" "ext" "ext" jwk lacks ∙ no_ext)
        ∙ lookup-from_old_jwk usage algorithm name jwk not_alg not_key_ops
        ∙ lookup-rename-none "extractable" "ext" name jwk lacks
    | inr (value, there) ↦
        lookup-rename-some "ext" "extractable" name standard value
          (ext_of_standard ∙ lookup-rename-some "extractable" "ext" "ext" jwk value there)
        ∙ ground (
          arith,
          str_eq_iff "ext" name,
          str_eq_iff "extractable" name,
          lookup-from_old_jwk usage algorithm name jwk not_alg not_key_ops,
          lookup-rename-some "extractable" "ext" name jwk value there,
        )
  ]

-- A key that an old browser exported, without `ext`, is given the names of the standard and, when it
-- is imported again, the old names. It then has the members that it had, but no `key_ops`; only
-- `alg` may have been added.
pub to_old_jwk-from_old_jwk :
    (usage : List String) (algorithm name : String) (jwk : Jwk)
    → lookup "ext" jwk ≡ none
    → "alg" ≢ name
    → lookup name (to_old_jwk (from_old_jwk usage algorithm jwk))
      ≡ (if str_eq "key_ops" name then none else lookup name jwk)
to_old_jwk-from_old_jwk usage algorithm name jwk no_ext not_alg =
    lookup-to_old_jwk name (from_old_jwk usage algorithm jwk)
    ∙ elim (Bool-cases (str_eq "key_ops" name)) [
      | inl same ↦ rw same
      | inr other ↦
          rw other
            (rename-rename usage algorithm name jwk not_alg (differ "key_ops" name other) no_ext)
    ]
