-- ===== src/Js/Objects.antt =====
-- Plain objects: properties by name, in the order in which they were added.
use crypto_security_projects.Base.{
  ◌≡◌, ◌≢◌, refl, arith, Bool, true, false, List, [], ◌∷◌, String, Option, none, some, str_eq,
  str_eq_iff, if◌then◌else◌,
}

module _ {ℓ} {V : Type ℓ} where
  -- `object[name]`, where `none` is `undefined`.
  unfoldable pub lookup : String → List (String × V) → Option V
  lookup name [] = none
  lookup name ((n, v) ∷ object) = if str_eq n name then some v else lookup name object

  -- `object.hasOwnProperty(name)`
  unfoldable pub has_own : String → List (String × V) → Bool
  unfolding lookup
  has_own name object = elim (lookup name object) [ some _ ↦ true | none ↦ false ]

  -- `object[name] = value`: an old property keeps its place.
  unfoldable pub put : String → V → List (String × V) → List (String × V)
  put name value [] = (name, value) ∷ []
  put name value ((n, v) ∷ object) =
      if str_eq n name then (n, value) ∷ object else (n, v) ∷ put name value object

  -- `delete object[name]`
  unfoldable pub remove : String → List (String × V) → List (String × V)
  remove name [] = []
  remove name ((n, v) ∷ object) =
      if str_eq n name then remove name object else (n, v) ∷ remove name object

  pub lookup-put :
      (name other : String) (value : V) (object : List (String × V))
      → lookup other (put name value object)
        ≡ (if str_eq name other then some value else lookup other object)
  unfolding lookup put
  lookup-put name other value [] = refl
  lookup-put name other value ((n, v) ∷ object) = ground (
    arith,
    str_eq_iff name other,
    str_eq_iff n name,
    str_eq_iff n other,
    lookup-put name other value object,
  )

  pub lookup-remove :
      (name other : String) (object : List (String × V))
      → lookup other (remove name object)
        ≡ (if str_eq name other then none else lookup other object)
  unfolding lookup remove
  lookup-remove name other [] = ground arith
  lookup-remove name other ((n, v) ∷ object) = ground (
    arith,
    str_eq_iff name other,
    str_eq_iff n name,
    str_eq_iff n other,
    lookup-remove name other object,
  )

-- Names that the test tells apart are different.
pub differ : (a b : String) → str_eq a b ≡ false → a ≢ b
differ a b h e = ground (arith, str_eq_iff a b)
