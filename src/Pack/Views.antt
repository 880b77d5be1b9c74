-- ===== src/Pack/Views.antt =====
-- What the values of a decoded message are.
use crypto_security_projects.Base.{
  ℕ, zero, suc, ◌+◌, ◌≤◌, ◌≡◌, ◌∙◌, refl, ap, sym, subst, arith, Bool-cases, inl, inr, true, List,
  [], ◌∷◌, String, length, str_eq, All, ltb,
}
use crypto_security_projects.Js.{
  Attempt, ok, throw, stuck, ◌>>=◌, Source, array_buffer, uint8_array, array, undefined, sub_view,
}
use crypto_security_projects.Pack.{
  Dict, label_of, assign, get_uint8, get_uint32, read_frame, decode_loop, decode,
}

-- A Uint8Array over the buffer, that lies in it.
abbrev pub IsView : List ℕ → Source → Type 0
IsView buffer source =
    (offset : ℕ) × (len : ℕ) × (source ≡ uint8_array buffer offset len)
    × (offset + len ≤ length buffer)

-- Every value of the dictionary is such a view.
abbrev pub AreViews : List ℕ → Dict → Type 0
AreViews buffer dict = All (λ entry. IsView buffer entry.1) dict

assign-AreViews :
    (buffer : List ℕ) (dict : Dict) (label : String) (value : Source)
    → AreViews buffer dict
    → IsView buffer value
    → AreViews buffer (assign dict label value)
unfolding assign
assign-AreViews buffer [] label value views view = (view, tt)
assign-AreViews buffer ((l, v) ∷ dict) label value views view = elim (Bool-cases (str_eq l label)) [
  | inl same ↦ rw (assign, same) (view, views.1)
  | inr other ↦ rw (assign, other) (views.0, assign-AreViews buffer dict label value views.1 view)
]

read_frame-IsView :
    (buffer : List ℕ) (offset size : ℕ) (frame : Source)
    → read_frame buffer offset size ≡ ok frame
    → IsView buffer frame
unfolding read_frame sub_view
read_frame-IsView buffer offset size frame reads =
    (offset + 5, size, ground (arith, reads), ground (arith, reads))

-- A chain of two steps that gives a value has gone through both.
bind_ok {ℓ κ} :
    {A : Type ℓ} {B : Type κ} (m : Attempt A) (f : A → Attempt B) {b : B}
    → (m >>= f) ≡ ok b
    → (a : A) × (m ≡ ok a) × (f a ≡ ok b)
bind_ok (ok a) f runs = (a, refl, runs)
bind_ok (throw x) f runs = absurd (cc)
bind_ok stuck f runs = absurd (cc)

ok_injective {ℓ} : {A : Type ℓ} {a b : A} → ok a ≡ ok b → a ≡ b
ok_injective {a = a} same = ap (λ m. elim m [ ok x ↦ x | _ ↦ a ]) same

decode_loop-AreViews :
    (fuel : ℕ) (buffer : List ℕ) (offset : ℕ) (dict read : Dict)
    → AreViews buffer dict
    → decode_loop fuel buffer offset dict ≡ ok read
    → AreViews buffer read
unfolding decode_loop
decode_loop-AreViews zero buffer offset dict read views runs = absurd (cc)
decode_loop-AreViews (suc fuel) buffer offset dict read views runs =
    elim (Bool-cases (ltb offset (length buffer))) [
      | inl more ↦
          let (index, reads_index, runs₁) =
            bind_ok (get_uint8 buffer offset) _ (sym (round more) ∙ runs) in
          let (size, reads_size, runs₂) = bind_ok (get_uint32 buffer (offset + 1)) _ runs₁ in
          let (frame, reads_frame, runs₃) = bind_ok (read_frame buffer offset size) _ runs₂ in
          decode_loop-AreViews fuel buffer (offset + 5 + size) (assign dict (label_of index) frame)
            read
            (assign-AreViews buffer dict (label_of index) frame views
              (read_frame-IsView buffer offset size frame reads_frame))
            runs₃
      | inr last ↦
          subst (AreViews buffer)
            (ok_injective (sym (unfold decode_loop in rw (decode_loop, last) refl) ∙ runs)) views
    ]
  where
    round :
        ltb offset (length buffer) ≡ true
        → decode_loop (suc fuel) buffer offset dict ≡ (
            get_uint8 buffer offset >>= λ index. get_uint32 buffer (offset + 1) >>= λ size.
            read_frame buffer offset size >>= λ frame.
            decode_loop fuel buffer (offset + 5 + size) (assign dict (label_of index) frame))
    round more = unfold decode_loop in rw (decode_loop, more) refl

-- The values that `decode` returns are Uint8Arrays over the buffer that it was given, and each lies
-- within the buffer; it returns values for no argument but an ArrayBuffer.
pub decode-AreViews :
    (source : Source) (read : Dict)
    → decode source ≡ ok read
    → (buffer : List ℕ) × (source ≡ array_buffer buffer) × AreViews buffer read
unfolding decode
decode-AreViews (array_buffer buffer) read runs =
    let (first, reads, runs₁) = bind_ok (get_uint8 buffer 0) _ runs in
    (buffer, refl, decode_loop-AreViews (length buffer) buffer 1 [] read tt runs₁)
decode-AreViews (uint8_array bs offset len) read runs = absurd (cc)
decode-AreViews (array ns) read runs = absurd (cc)
decode-AreViews undefined read runs = absurd (cc)
