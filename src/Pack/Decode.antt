-- ===== src/Pack/Decode.antt =====
-- `pack.decode` against the format.
use crypto_security_projects.Base.{
  ℕ, zero, suc, ◌+◌, ◌*◌, ◌/◌, ◌%◌, ◌^◌, ◌≤◌, ◌<◌, ◌≡◌, ◌∙◌, refl, ap, arith, List, [], ◌∷◌, ◌++◌,
  length, length-append, length-drop, drop, drop-append, take-append, All, get_elem?, some, take,
  get_elem?-drop, drop-drop,
}
use crypto_security_projects.Js.{ok, array_buffer, sub_view, uint8_array}
use crypto_security_projects.Pack.{
  big_endian, label_of, assign, Dict, get_uint8, get_uint32, read_frame, decode_loop, decode,
}
use crypto_security_projects.Pack.Format.{
  Frame, layout, Fits, contents, assign_bytes, entries_of, contents-assign,
}

-- Reads at an offset are reads of what is left of the buffer.
pub get_uint8-drop :
    (buffer : List ℕ) (offset k p b : ℕ)
    → p ≡ offset + k
    → get_elem? (drop offset buffer) k ≡ some b
    → get_uint8 buffer p ≡ ok b
unfolding get_uint8
get_uint8-drop buffer offset k p b place e =
    ap (get_uint8 buffer) place ∙ ground (arith, get_elem?-drop offset k buffer)

big_endian_value :
    (n : ℕ)
    → n < 2 ^ 32
    → n / 2 ^ 24 % 256 * 2 ^ 24 + n / 2 ^ 16 % 256 * 2 ^ 16 + n / 2 ^ 8 % 256 * 2 ^ 8 + n % 256 ≡ n
big_endian_value n h = omega arith

pub get_uint32-drop :
    (buffer : List ℕ) (offset i n : ℕ) (rest : List ℕ)
    → n < 2 ^ 32
    → drop offset buffer ≡ i ∷ (big_endian n ++ rest)
    → get_uint32 buffer (offset + 1) ≡ ok n
unfolding get_uint32
get_uint32-drop buffer offset i n rest h e =
    let at = λ (k p b : ℕ) (place : p ≡ offset + k). get_uint8-drop buffer offset k p b place in
    rw
      (
        at 1 (offset + 1) (n / 2 ^ 24 % 256) refl (rw e),
        at 2 (offset + 1 + 1) (n / 2 ^ 16 % 256) (omega arith) (rw e),
        at 3 (offset + 1 + 2) (n / 2 ^ 8 % 256) (omega arith) (rw e),
        at 4 (offset + 1 + 3) (n % 256) (omega arith) (rw e),
      )
      (ap ok (big_endian_value n h))

module _ (buffer : List ℕ) (offset i : ℕ) (bs rest : List ℕ) (fits : length bs < 2 ^ 32)
    (left : drop offset buffer ≡ i ∷ (big_endian (length bs) ++ (bs ++ rest))) where
  room : offset + 5 + length bs ≤ length buffer
  room = omega (arith, ap length left, length-drop offset buffer, length-append bs rest)

  drop_head : drop (offset + 5) buffer ≡ bs ++ rest
  drop_head = rw (drop-drop offset 5 buffer, left)

  frame_bytes : take (length bs) (drop (offset + 5) buffer) ≡ bs
  frame_bytes = rw drop_head (take-append bs rest)

  pub drop_frame : drop (offset + 5 + length bs) buffer ≡ rest
  drop_frame = rw (drop-drop (offset + 5) (length bs) buffer, drop_head) (drop-append bs rest)

  read_frame_lem :
      read_frame buffer offset (length bs) ≡ ok (uint8_array buffer (offset + 5) (length bs))
  unfolding read_frame sub_view
  read_frame_lem = ground (arith, room)

  pub decode_loop_frame :
      (fuel : ℕ) (dict : Dict)
      → decode_loop (suc fuel) buffer offset dict
        ≡ decode_loop fuel buffer
            (offset + 5 + length bs)
            (assign dict (label_of i) (uint8_array buffer (offset + 5) (length bs)))
  unfolding decode_loop
  decode_loop_frame fuel dict = ground (
    arith,
    room,
    get_uint8-drop buffer offset 0 offset i (omega arith) (rw left),
    get_uint32-drop buffer offset i (length bs) (bs ++ rest) fits left,
    read_frame_lem,
  )

decode_loop-layout :
    (fuel : ℕ) (buffer : List ℕ) (offset : ℕ) (frames : List Frame) (dict : Dict)
    → All Fits frames
    → drop offset buffer ≡ layout frames
    → length (layout frames) < fuel
    → (d : Dict) × (decode_loop fuel buffer offset dict ≡ ok d)
      × (contents d ≡ entries_of frames (contents dict))
decode_loop-layout zero buffer offset frames dict fits left h = absurd (omega arith)
decode_loop-layout (suc fuel) buffer offset [] dict fits left h =
    (dict, unfold decode_loop in done, refl)
  where
    done : decode_loop (suc fuel) buffer offset dict ≡ ok dict
    done = unfold decode_loop in ground (arith, ap length left, length-drop offset buffer)
decode_loop-layout (suc fuel) buffer offset ((i, bs) ∷ frames) dict fits left h =
    let frame = uint8_array buffer (offset + 5) (length bs) in
    let (d, run, same) =
      decode_loop-layout fuel buffer (offset + 5 + length bs) frames
        (assign dict (label_of i) frame) fits.1
        (drop_frame buffer offset i bs (layout frames) fits.0 left)
        (omega (arith, length-append bs (layout frames))) in
    (
      d,
      decode_loop_frame buffer offset i bs (layout frames) fits.0 left fuel dict ∙ run,
      same
          ∙ ap (entries_of frames) (
              contents-assign dict (label_of i) frame
              ∙ ap (assign_bytes (contents dict) (label_of i))
                  (frame_bytes buffer offset i bs (layout frames) fits.0 left)),
    )

-- On a buffer that holds a first byte and then frames, `decode` returns the entries that the
-- frames stand for.
pub decode-layout :
    (v : ℕ) (frames : List Frame)
    → All Fits frames
    → (d : Dict) × (decode (array_buffer (v ∷ layout frames)) ≡ ok d)
      × (contents d ≡ entries_of frames [])
unfolding decode get_uint8
decode-layout v frames fits =
    decode_loop-layout (suc (length (layout frames))) (v ∷ layout frames) 1 frames [] fits refl
      (omega arith)
