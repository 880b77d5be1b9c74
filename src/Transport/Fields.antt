-- ===== src/Transport/Fields.antt =====
-- What a receiver finds in a dictionary that was packed and unpacked.
use crypto_security_projects.Base.{
  ℕ, ◌<◌, ◌^◌, length, ◌≡◌, ◌∙◌, refl, ap, sym, subst, arith, List, [], ◌∷◌, String, str_eq, Option,
  none, some, Option-cases, inl, inr, All, Bool-cases,
}
use crypto_security_projects.Js.{ok, Source, array_buffer, bytes}
use crypto_security_projects.Js.Objects.{lookup}
use crypto_security_projects.Internal.Sym.Steps.{IsWhole}
use crypto_security_projects.Pack.{Dict, label_to_index, find_index, encode, decode}
use crypto_security_projects.Pack.Format.{contents}
use crypto_security_projects.Pack.RoundTrip.{IsField, Distinct, decode-encode}
use crypto_security_projects.Pack.Views.{IsView, AreViews, decode-AreViews}

abbrev bytes_option : Option Source → Option (List ℕ)
bytes_option none = none
bytes_option (some value) = some (bytes value)

lookup-contents :
    (label : String) (dict : Dict) → lookup label (contents dict) ≡ bytes_option (lookup label dict)
unfolding lookup
lookup-contents label [] = refl
lookup-contents label ((l, v) ∷ dict) = ground (arith, lookup-contents label dict)

lookup-AreViews :
    (buffer : List ℕ) (label : String) (dict : Dict) {value : Source}
    → AreViews buffer dict
    → lookup label dict ≡ some value
    → IsView buffer value
unfolding lookup
lookup-AreViews buffer label [] views found = absurd (cc)
lookup-AreViews buffer label ((l, v) ∷ dict) {value} views found =
    elim (Bool-cases (str_eq l label)) [
      | inl same ↦
          let here : v ≡ value = ground (arith, found, same) in subst (IsView buffer) here views.0
      | inr other ↦ lookup-AreViews buffer label dict views.1 (ground (arith, found, other))
    ]

IsView-IsWhole : (buffer : List ℕ) (value : Source) → IsView buffer value → IsWhole value
IsView-IsWhole buffer value (offset, len, same, room) = rw same room

-- The second dictionary has the properties of the first one, with the same bytes in whole buffers or
-- views, and no others.
pub record Carries (sent received : Dict) : Type 0 where
  pub found :
      (label : String) (value : Source)
      → lookup label sent ≡ some value
      → (value' : Source) × (lookup label received ≡ some value')
        × IsWhole value'
        × (bytes value' ≡ bytes value)
  pub missing : (label : String) → lookup label sent ≡ none → lookup label received ≡ none

-- Both dictionaries have the same bytes under each label.
lookup-same :
    (sent received : Dict) (label : String)
    → contents received ≡ contents sent
    → bytes_option (lookup label received) ≡ bytes_option (lookup label sent)
lookup-same sent received label same =
    sym (lookup-contents label received) ∙ ap (lookup label) same ∙ lookup-contents label sent

bytes_option-some :
    (o o' : Option Source) {value value' : Source}
    → bytes_option o ≡ bytes_option o'
    → o ≡ some value
    → o' ≡ some value'
    → bytes value ≡ bytes value'
bytes_option-some o o' same here there = ground (arith, same, here, there)

bytes_option-none : (o o' : Option Source) → bytes_option o ≡ bytes_option o' → o' ≡ none → o ≡ none
bytes_option-none none o' same there = refl
bytes_option-none (some value) o' same there = absurd (ground (arith, same, there))

contents-Carries :
    (buffer : List ℕ) (sent received : Dict)
    → contents received ≡ contents sent
    → AreViews buffer received
    → Carries sent received
contents-Carries buffer sent received same views = record {
  found = λ label value there. elim (Option-cases (lookup label received)) [
    | inl absent ↦
        let lost =
          bytes_option-none (lookup label sent) (lookup label received)
            (sym (lookup-same sent received label same)) absent in
        absurd (cc)
    | inr (value', here) ↦ (
      value',
      here,
      IsView-IsWhole buffer value' (lookup-AreViews buffer label received views here),
      bytes_option-some (lookup label received) (lookup label sent)
          (lookup-same sent received label same) here there,
    )
  ];
  missing = λ label absent.
      bytes_option-none (lookup label received) (lookup label sent)
        (lookup-same sent received label same) absent;
}

-- A buffer that fits four size bytes, under one of the eight labels.
pub field :
    (label : String) {n : ℕ} (bs : List ℕ)
    → find_index label_to_index label ≡ some n
    → length bs < 2 ^ 32
    → IsField (label, array_buffer bs)
field label {n} bs known small = ((n, known), (bs, refl, small))

-- A dictionary of distinct fields is packed, and unpacking the result gives its properties.
pub transport_lem :
    (dict : Dict)
    → All IsField dict
    → Distinct dict
    → (sent : List ℕ) × (received : Dict) × (encode dict ≡ ok sent)
      × (decode (array_buffer sent) ≡ ok received)
      × Carries dict received
transport_lem dict fields distinct =
    let (sent, received, encodes, decodes, same) = decode-encode dict fields distinct in
    let (buffer, whole, views) = decode-AreViews (array_buffer sent) received decodes in
    (sent, received, encodes, decodes, contents-Carries buffer dict received same views)
