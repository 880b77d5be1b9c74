-- ===== src/Pack/Reject.antt =====
-- What `pack.decode` does on arbitrary bytes: it reads a sequence of frames or it throws.
use crypto_security_projects.Base.{
  ℕ, zero, suc, ◌+◌, ◌*◌, ◌^◌, ◌≤◌, ◌<◌, ◌≡◌, ◌∙◌, ◌⊎◌, inl, inr, refl, ap, sym, arith, List, [],
  ◌∷◌, ◌++◌, length, length-drop, length-take, take-append-drop, if◌then◌else◌, drop, All,
  get_elem?, some, take, get_elem?-drop, ltb, true, none, Bool-cases,
}
use crypto_security_projects.Js.{
  ok, throw, array_buffer, sub_view, uint8_array, Exn, range_error, incorrect_size,
}
use crypto_security_projects.Pack.{
  big_endian, label_of, assign, Dict, get_uint8, get_uint32, read_frame, decode_loop, decode,
}
use crypto_security_projects.Pack.Format.{Frame, layout, Fits, contents, entries_of}
use crypto_security_projects.Pack.Decode.{
  decode-layout, decode_loop_frame, drop_frame, get_uint32-drop, get_uint8-drop,
}

abbrev pub IsByte : ℕ → Type 0
IsByte b = b < 256

-- A read past the end of what is left.
get_uint8-none :
    (buffer : List ℕ) (offset k p : ℕ)
    → p ≡ offset + k
    → get_elem? (drop offset buffer) k ≡ none
    → get_uint8 buffer p ≡ throw range_error
unfolding get_uint8
get_uint8-none buffer offset k p place e =
    ap (get_uint8 buffer) place ∙ ground (arith, get_elem?-drop offset k buffer)

module _ (buffer : List ℕ) (offset : ℕ) where
  read_short :
      (k b : ℕ) (rest : List ℕ) (p : ℕ)
      → drop offset buffer ≡ rest
      → p ≡ offset + k
      → get_elem? rest k ≡ some b
      → get_uint8 buffer p ≡ ok b
  read_short k b rest p left place e = get_uint8-drop buffer offset k p b place (rw left e)

  read_none :
      (k : ℕ) (rest : List ℕ) (p : ℕ)
      → drop offset buffer ≡ rest
      → p ≡ offset + k
      → get_elem? rest k ≡ none
      → get_uint8 buffer p ≡ throw range_error
  read_none k rest p left place e = get_uint8-none buffer offset k p place (rw left e)

  -- Fewer than four bytes are no size.
  get_uint32-short :
      (i : ℕ) (rest : List ℕ)
      → drop offset buffer ≡ i ∷ rest
      → length rest < 4
      → get_uint32 buffer (offset + 1) ≡ throw range_error
  unfolding get_uint32
  get_uint32-short i [] left h = rw (read_none 1 _ (offset + 1) left refl refl)
  get_uint32-short i (a ∷ []) left h = rw (
    read_short 1 a _ (offset + 1) left refl refl,
    read_none 2 _ (offset + 1 + 1) left (omega arith) refl,
  )
  get_uint32-short i (a ∷ b ∷ []) left h = rw (
    read_short 1 a _ (offset + 1) left refl refl,
    read_short 2 b _ (offset + 1 + 1) left (omega arith) refl,
    read_none 3 _ (offset + 1 + 2) left (omega arith) refl,
  )
  get_uint32-short i (a ∷ b ∷ c ∷ []) left h = rw (
    read_short 1 a _ (offset + 1) left refl refl,
    read_short 2 b _ (offset + 1 + 1) left (omega arith) refl,
    read_short 3 c _ (offset + 1 + 2) left (omega arith) refl,
    read_none 4 _ (offset + 1 + 3) left (omega arith) refl,
  )
  get_uint32-short i (a ∷ b ∷ c ∷ d ∷ rest) left h = absurd (omega arith)

  more : (i : ℕ) (rest : List ℕ) → drop offset buffer ≡ i ∷ rest → ltb offset (length buffer) ≡ true
  more i rest left = ground (arith, ap length left, length-drop offset buffer)

  -- A size that passes the end is refused by the check or, if it passes that, by the view.
  read_frame-overrun :
      (i n : ℕ) (rest : List ℕ)
      → drop offset buffer ≡ i ∷ (big_endian n ++ rest)
      → length rest < n
      → read_frame buffer offset n
        ≡ throw (
            if ltb (length buffer + 5) (n + offset)
            then incorrect_size n (length buffer)
            else range_error)
  unfolding read_frame sub_view
  read_frame-overrun i n rest left h = ground (arith, ap length left, length-drop offset buffer)

module _ (buffer : List ℕ) (offset fuel : ℕ) (dict : Dict) where
  decode_loop-short :
      (i : ℕ) (rest : List ℕ)
      → drop offset buffer ≡ i ∷ rest
      → length rest < 4
      → decode_loop (suc fuel) buffer offset dict ≡ throw range_error
  unfolding decode_loop
  decode_loop-short i rest left h = ground (
    arith,
    more buffer offset i rest left,
    read_short buffer offset 0 i _ offset left (omega arith) refl,
    get_uint32-short buffer offset i rest left,
  )

  decode_loop-overrun :
      (i n : ℕ) (rest : List ℕ)
      → drop offset buffer ≡ i ∷ (big_endian n ++ rest)
      → n < 2 ^ 32
      → length rest < n
      → (e : Exn) × (decode_loop (suc fuel) buffer offset dict ≡ throw e)
  unfolding decode_loop
  decode_loop-overrun i n rest left fits h = (
    if ltb (length buffer + 5) (n + offset) then incorrect_size n (length buffer) else range_error,
    ground (
      arith,
      more buffer offset i _ left,
      read_short buffer offset 0 i _ offset left (omega arith) refl,
      get_uint32-drop buffer offset i n rest fits left,
      read_frame-overrun buffer offset i n rest left h,
    ),
  )

abbrev size_of : ℕ → ℕ → ℕ → ℕ → ℕ
size_of a b c d = a * 2 ^ 24 + b * 2 ^ 16 + c * 2 ^ 8 + d

big_endian-size_of :
    (a b c d : ℕ)
    → IsByte a
    → IsByte b
    → IsByte c
    → IsByte d
    → big_endian (size_of a b c d) ≡ a ∷ b ∷ c ∷ d ∷ []
big_endian-size_of a b c d ha hb hc hd = ground arith

-- A buffer's rest that holds a whole frame, seen as that frame and what follows.
module _ (i n : ℕ) (size rest : List ℕ) (sized : big_endian n ≡ size)
    (within : n ≤ length rest) where
  frame_size : length (take n rest) ≡ n
  frame_size = omega (arith, length-take n rest)

  framed :
      i ∷ (size ++ rest) ≡ i ∷ (big_endian (length (take n rest)) ++ (take n rest ++ drop n rest))
  framed =
      ap (λ bytes. i ∷ (bytes ++ rest)) (sym sized)
      ∙ ap (λ bytes. i ∷ (big_endian n ++ bytes)) (sym (take-append-drop n rest))
      ∙ ap (λ len. i ∷ (big_endian len ++ (take n rest ++ drop n rest))) (sym frame_size)

All-drop : (n : ℕ) (bs : List ℕ) → All IsByte bs → All IsByte (drop n bs)
All-drop zero bs h = h
All-drop (suc n) [] h = tt
All-drop (suc n) (b ∷ bs) h = All-drop n bs h.1

abbrev IsLayout : List ℕ → Type 0
IsLayout bs = (frames : List Frame) × (bs ≡ layout frames) × All Fits frames

decode_loop_cases :
    (fuel : ℕ) (buffer : List ℕ) (offset : ℕ) (left : List ℕ) (dict : Dict)
    → drop offset buffer ≡ left
    → All IsByte left
    → length left < fuel
    → IsLayout left ⊎ ((e : Exn) × (decode_loop fuel buffer offset dict ≡ throw e))
decode_loop_cases zero buffer offset left dict e h f = absurd (omega arith)
decode_loop_cases (suc fuel) buffer offset [] dict e h f = inl ([], refl, tt)
decode_loop_cases (suc fuel) buffer offset (i ∷ []) dict e h f =
    inr (range_error, decode_loop-short buffer offset fuel dict i _ e (omega arith))
decode_loop_cases (suc fuel) buffer offset (i ∷ a ∷ []) dict e h f =
    inr (range_error, decode_loop-short buffer offset fuel dict i _ e (omega arith))
decode_loop_cases (suc fuel) buffer offset (i ∷ a ∷ b ∷ []) dict e h f =
    inr (range_error, decode_loop-short buffer offset fuel dict i _ e (omega arith))
decode_loop_cases (suc fuel) buffer offset (i ∷ a ∷ b ∷ c ∷ []) dict e h f =
    inr (range_error, decode_loop-short buffer offset fuel dict i _ e (omega arith))
decode_loop_cases (suc fuel) buffer offset (i ∷ a ∷ b ∷ c ∷ d ∷ rest) dict e h f =
    let n = size_of a b c d in
    let (hi, (ha, (hb, (hc, (hd, hrest))))) = h in
    let sized = big_endian-size_of a b c d ha hb hc hd in
    let small : n < 2 ^ 32 = omega arith in
    elim (Bool-cases (ltb (length rest) n)) [
      | inl over ↦ inr (
          decode_loop-overrun buffer offset fuel dict i n rest
            (e ∙ ap (λ bs. i ∷ (bs ++ rest)) (sym sized)) small (ground arith))
      | inr fits ↦
          let within : n ≤ length rest = ground arith in
          let bs = take n rest in
          let whole : drop offset buffer ≡ i ∷ (big_endian (length bs) ++ (bs ++ drop n rest)) =
            e ∙ framed i n (a ∷ b ∷ c ∷ d ∷ []) rest sized within in
          let bound : length bs < 2 ^ 32 = omega (arith, length-take n rest) in
          let dict' = assign dict (label_of i) (uint8_array buffer (offset + 5) (length bs)) in
          elim (decode_loop_cases fuel buffer (offset + 5 + length bs) (drop n rest) dict'
            (drop_frame buffer offset i bs (drop n rest) bound whole) (All-drop n rest hrest)
            (omega (arith, length-drop n rest))) [
              | inl (frames, same, more_fit) ↦ inl (
                (i, bs) ∷ frames,
                framed i n (a ∷ b ∷ c ∷ d ∷ []) rest sized within
                    ∙ ap (λ tail. i ∷ (big_endian (length bs) ++ (bs ++ tail))) same,
                (bound, more_fit),
              )
              | inr (x, run) ↦ inr (
                x,
                decode_loop_frame buffer offset i bs (drop n rest) bound whole fuel dict ∙ run,
              )
            ]
    ]

decode_splits :
    (buffer : List ℕ)
    → All IsByte buffer
    → ((v : ℕ) × (frames : List Frame) × (buffer ≡ v ∷ layout frames) × All Fits frames)
      ⊎ ((e : Exn) × (decode (array_buffer buffer) ≡ throw e))
unfolding decode get_uint8
decode_splits [] h = inr (range_error, refl)
decode_splits (v ∷ bs) h =
    elim (decode_loop_cases (suc (length bs)) (v ∷ bs) 1 bs [] refl h.1 (omega arith)) [
      | inl (frames, same, fits) ↦ inl (v, frames, ap (λ tail. v ∷ tail) same, fits)
      | inr (e, run) ↦ inr (e, run)
    ]

-- On any bytes, either they are a first byte with frames behind it and `decode` returns the entries
-- that the frames stand for, or `decode` throws. It never runs out of its fuel.
pub decode_cases :
    (buffer : List ℕ)
    → All IsByte buffer
    → ((v : ℕ) × (frames : List Frame) × (d : Dict) × (buffer ≡ v ∷ layout frames)
        × (decode (array_buffer buffer) ≡ ok d)
        × (contents d ≡ entries_of frames []))
      ⊎ ((e : Exn) × (decode (array_buffer buffer) ≡ throw e))
decode_cases buffer h = elim (decode_splits buffer h) [
  | inr refused ↦ inr refused
  | inl (v, frames, same, fits) ↦
      let (d, run, entries) = decode-layout v frames fits in
      inl (v, frames, d, same, ap (λ bs. decode (array_buffer bs)) same ∙ run, entries)
]
