-- ===== src/Pack/Encode.antt =====
-- `pack.encode` against the format, and the entries that it refuses.
use crypto_security_projects.Base.{
  ℕ, ◌+◌, ◌≤◌, ◌≡◌, inl, inr, refl, ap, arith, List, [], ◌∷◌, ◌++◌, String, length, length-append,
  length-drop, length-replicate, drop, drop-append, drop-drop, replicate, take-append, append_assoc,
  All, some, Option, none, Option-cases,
}
use crypto_security_projects.Js.{
  Source, bytes, ok, throw, array_buffer, undefined, uint8_array, array, unsupported_key,
  not_array_buffer, Exn,
}
use crypto_security_projects.Pack.{
  big_endian, index_of, index_or_zero, Dict, measure, store, write, encode, version,
}
use crypto_security_projects.Pack.Format.{Frame, layout}

-- What `encode` accepts: a label that `in` finds, with an ArrayBuffer.
abbrev pub IsEntry : String × Source → Type 0
IsEntry (label, value) =
    ((n : ℕ) × (index_of label ≡ some n)) × ((bs : List ℕ) × (value ≡ array_buffer bs))

abbrev pub frames_of : Dict → List Frame
frames_of [] = []
frames_of ((label, value) ∷ dict) = (index_or_zero (index_of label), bytes value) ∷ frames_of dict

measure-layout :
    (dict : Dict) (size : ℕ)
    → All IsEntry dict
    → measure dict size ≡ ok (size + length (layout (frames_of dict)))
unfolding measure
measure-layout [] size h = ap ok (omega arith)
measure-layout ((label, value) ∷ dict) size (((n, known), (bs, buffer)), h) = ground (
  arith,
  measure-layout dict (size + 5 + length bs) h,
  length-append bs (layout (frames_of dict)),
)

-- A store over the front of what is left.
store-append :
    (pre rest bs : List ℕ) (offset : ℕ)
    → offset ≡ length pre
    → length bs ≤ length rest
    → store (pre ++ rest) offset bs ≡ ok ((pre ++ bs) ++ drop (length bs) rest)
unfolding store
store-append pre rest bs offset place h = rw place (
    ground (
      arith,
      length-append pre rest,
      take-append pre rest,
      drop-drop (length pre) (length bs) (pre ++ rest),
      drop-append pre rest,
    ))

-- The three stores of a frame.
module _ (pre rest bs more : List ℕ) (index offset : ℕ) (place : offset ≡ length pre)
    (room : length rest ≡ 5 + length bs + length more) where
  abbrev after_index : List ℕ
  after_index = pre ++ (index ∷ [])

  abbrev after_size : List ℕ
  after_size = after_index ++ big_endian (length bs)

  abbrev left : List ℕ
  left = drop (length bs) (drop 4 (drop 1 rest))

  store_index : store (pre ++ rest) offset (index ∷ []) ≡ ok (after_index ++ drop 1 rest)
  store_index = store-append pre rest (index ∷ []) offset place (omega arith)

  store_size :
      store (after_index ++ drop 1 rest) (offset + 1) (big_endian (length bs))
      ≡ ok (after_size ++ drop 4 (drop 1 rest))
  store_size =
      store-append after_index (drop 1 rest) (big_endian (length bs)) (offset + 1)
        (omega (arith, length-append pre (index ∷ []))) (omega (arith, length-drop 1 rest))

  length-after_size : length after_size ≡ offset + 5
  length-after_size =
      omega
        (arith, length-append pre (index ∷ []), length-append after_index (big_endian (length bs)))

  store_data :
      store (after_size ++ drop 4 (drop 1 rest)) (offset + 5) bs ≡ ok ((after_size ++ bs) ++ left)
  store_data =
      store-append after_size (drop 4 (drop 1 rest)) bs (offset + 5)
        (omega (arith, length-after_size))
        (omega (arith, length-drop 1 rest, length-drop 4 (drop 1 rest)))

  length-frame : offset + 5 + length bs ≡ length (after_size ++ bs)
  length-frame = omega (arith, length-after_size, length-append after_size bs)

  length-left : length left ≡ length more
  length-left = omega (
    arith,
    length-drop 1 rest,
    length-drop 4 (drop 1 rest),
    length-drop (length bs) (drop 4 (drop 1 rest)),
  )

write-layout :
    (dict : Dict) (pre rest : List ℕ) (offset : ℕ)
    → All IsEntry dict
    → offset ≡ length pre
    → length rest ≡ length (layout (frames_of dict))
    → write dict (pre ++ rest) offset ≡ ok (pre ++ layout (frames_of dict))
unfolding write
write-layout [] pre [] offset h place size = refl
write-layout [] pre (b ∷ rest) offset h place size = absurd (omega arith)
write-layout ((label, value) ∷ dict) pre rest offset h place size =
    let bs = bytes value in
    let more = layout (frames_of dict) in
    let i = index_or_zero (index_of label) in
    let room : length rest ≡ 5 + length bs + length more = omega (arith, length-append bs more) in
    rw
      (
        store_index pre rest bs more i offset place room,
        store_size pre rest bs more i offset place room,
        store_data pre rest bs more i offset place room,
        write-layout dict (((pre ++ (i ∷ [])) ++ big_endian (length bs)) ++ bs)
            (drop (length bs) (drop 4 (drop 1 rest))) (offset + 5 + length bs) h.1
            (length-frame pre rest bs more i offset place room)
            (length-left pre rest bs more i offset place room),
      )
      (simp append_assoc)

-- On entries that it accepts, `encode` writes the version and one frame for each entry, in order.
pub encode-layout :
    (dict : Dict) → All IsEntry dict → encode dict ≡ ok (version ∷ layout (frames_of dict))
unfolding encode
encode-layout dict h = rw (
  measure-layout dict 1 h,
  store-append [] (replicate size 0) (version ∷ []) 0 refl
      (omega (arith, length-replicate {A = ℕ} size 0)),
  write-layout dict (version ∷ []) (drop 1 (replicate size 0)) 1 h refl
      (omega (arith, length-drop 1 (replicate {A = ℕ} size 0), length-replicate {A = ℕ} size 0)),
)
  where
    size : ℕ
    size = 1 + length (layout (frames_of dict))

-- Why an entry is refused, if it is. The label is looked at first.
abbrev pub refusal : String → Source → Option Exn
refusal label value = elim (index_of label) [
  | none ↦ some (unsupported_key label)
  | some n ↦ elim value [ array_buffer bs ↦ none | _ ↦ some (not_array_buffer label) ]
]

abbrev pub first_refusal : Dict → Option Exn
first_refusal [] = none
first_refusal ((label, value) ∷ dict) = elim (refusal label value) [
  | some e ↦ some e
  | none ↦ first_refusal dict
]

first_refusal-IsEntry : (dict : Dict) → first_refusal dict ≡ none → All IsEntry dict
first_refusal-IsEntry [] h = tt
first_refusal-IsEntry ((label, array_buffer bs) ∷ dict) h = elim (Option-cases (index_of label)) [
  | inl unknown ↦ absurd (ground arith)
  | inr (n, known) ↦ (((n, known), (bs, refl)), first_refusal-IsEntry dict (ground arith))
]
first_refusal-IsEntry ((label, uint8_array bs o l) ∷ dict) h = ground arith
first_refusal-IsEntry ((label, array ns) ∷ dict) h = ground arith
first_refusal-IsEntry ((label, undefined) ∷ dict) h = ground arith

measure-refusal :
    (dict : Dict) (size : ℕ) (e : Exn) → first_refusal dict ≡ some e → measure dict size ≡ throw e
unfolding measure
measure-refusal [] size e h = cc
measure-refusal ((label, array_buffer bs) ∷ dict) size e h =
    ground (arith, measure-refusal dict (size + 5 + length bs) e)
measure-refusal ((label, uint8_array bs o l) ∷ dict) size e h = ground arith
measure-refusal ((label, array ns) ∷ dict) size e h = ground arith
measure-refusal ((label, undefined) ∷ dict) size e h = ground arith

-- On any dictionary `encode` throws the refusal of the first entry that is refused; if there is
-- none it returns the version and the frames.
pub encode_lem :
    (dict : Dict)
    → encode dict ≡ elim (first_refusal dict) [
      | some e ↦ throw e
      | none ↦ ok (version ∷ layout (frames_of dict))
    ]
encode_lem dict = elim (Option-cases (first_refusal dict)) [
  | inl accepted ↦ rw accepted (encode-layout dict (first_refusal-IsEntry dict accepted))
  | inr (e, refused) ↦ rw refused (unfold encode in rw (measure-refusal dict 1 e refused))
]
