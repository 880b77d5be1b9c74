-- ===== src/Tests/Pack.antt =====
-- The packed format on concrete dictionaries and bytes.
use crypto_security_projects.Base.{ℕ, ◌≡◌, ◌⊎◌, refl, arith, List, [], ◌∷◌, str_eq_iff}
use crypto_security_projects.Js.{
  ok, throw, Exn, array_buffer, uint8_array, range_error, not_array_buffer, unsupported_key,
  sub_view,
}
use crypto_security_projects.Pack.{
  Dict, encode, decode, measure, write, store, index_of, find_index, inherited, decode_loop,
  get_uint8, get_uint32, read_frame, assign, label_of, find_label,
}
use crypto_security_projects.Pack.Format.{Frame, layout, contents, entries_of}
use crypto_security_projects.Pack.Encode.{encode_lem}
use crypto_security_projects.Pack.Reject.{decode_cases}
use crypto_security_projects.Pack.RoundTrip.{decode-encode}

abbrev message : Dict
message = ("hmac", array_buffer (7 ∷ 8 ∷ [])) ∷ ("aesEncrypted", array_buffer (1 ∷ [])) ∷ []

abbrev packed : List ℕ
packed = 1 ∷ 1 ∷ 0 ∷ 0 ∷ 0 ∷ 2 ∷ 7 ∷ 8 ∷ 0 ∷ 0 ∷ 0 ∷ 0 ∷ 1 ∷ 1 ∷ []

encode-message : encode message ≡ ok packed
unfolding encode measure write store index_of find_index
encode-message = refl

-- What `decode` returns are views, which `encode` does not take back.
decode_message :
    decode (array_buffer packed)
    ≡ ok (("hmac", uint8_array packed 6 2) ∷ ("aesEncrypted", uint8_array packed 13 1) ∷ [])
unfolding decode decode_loop get_uint8 get_uint32 read_frame sub_view assign label_of find_label
decode_message = refl

encode_decoded : encode (("hmac", uint8_array packed 6 2) ∷ []) ≡ throw (not_array_buffer "hmac")
unfolding encode measure index_of find_index
encode_decoded = refl

-- An inherited name is taken for a label, with index 0.
encode_inherited :
    encode (("toString", array_buffer []) ∷ []) ≡ encode (("aesEncrypted", array_buffer []) ∷ [])
unfolding encode measure write store index_of find_index inherited
encode_inherited = refl

-- A size that passes the end by one passes the check too; the view throws.
decode_overrun : decode (array_buffer (1 ∷ 0 ∷ 0 ∷ 0 ∷ 0 ∷ 1 ∷ [])) ≡ throw range_error
unfolding decode decode_loop get_uint8 get_uint32 read_frame sub_view
decode_overrun = refl

encode_lem_example : encode (("toStrin", array_buffer []) ∷ []) ≡ throw (unsupported_key "toStrin")
unfolding index_of find_index inherited
encode_lem_example = encode_lem (("toStrin", array_buffer []) ∷ [])

decode-encode_example :
    (bs : List ℕ) × (d : Dict) × (encode message ≡ ok bs)
    × (decode (array_buffer bs) ≡ ok d)
    × (contents d ≡ contents message)
unfolding find_index
decode-encode_example =
    decode-encode message
      (((1, refl), (7 ∷ 8 ∷ [], refl, omega arith)), (((0, refl), (1 ∷ [], refl, omega arith)), tt))
      (((λ e. ground (arith, str_eq_iff "hmac" "aesEncrypted")), tt), (tt, tt))

decode_cases_example :
    ((v : ℕ) × (frames : List Frame) × (d : Dict) × (packed ≡ v ∷ layout frames)
      × (decode (array_buffer packed) ≡ ok d)
      × (contents d ≡ entries_of frames []))
    ⊎ ((e : Exn) × (decode (array_buffer packed) ≡ throw e))
decode_cases_example = decode_cases packed (omega arith)
