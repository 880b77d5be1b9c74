-- ===== src/Pack.antt =====
-- `simpleCrypto.pack` of EmmaStreamingSolution/src/www/js/lib/simplecrypto.js: the binary format of an encrypted
-- message. A version byte is followed by a frame for each entry: an index byte, the size in four
-- bytes (the highest first), and the data.
pub mod Format
pub mod Encode
pub mod Decode
pub mod Reject
pub mod RoundTrip
pub mod Views
use crypto_security_projects.Base.{
  ℕ, zero, suc, ◌+◌, ◌-◌, ◌*◌, ◌/◌, ◌%◌, ◌^◌, Option, none, some, Bool, true, false, ◌||◌, List, [],
  ◌∷◌, ◌++◌, map, String, str_eq, length, get_elem?, take, drop, replicate, ltb, leb, ◌==◌,
  if◌then◌else◌,
}
use crypto_security_projects.Js.{
  Attempt, ok, throw, stuck, ◌>>=◌, ◌>>◌, Source, array_buffer, uint8_array, array, undefined,
  bytes, type_error, range_error, unsupported_key, not_array_buffer, incorrect_size, sub_view, Exn,
}

-- An object's own properties, in the order in which `for … in` visits them.
abbrev pub Dict : Type 0
Dict = List (String × Source)

abbrev pub version : ℕ
version = 1

abbrev pub label_to_index : List (String × ℕ)
label_to_index =
    ("aesEncrypted", 0)
    ∷ ("hmac", 1)
    ∷ ("rsaEncrypted", 10)
    ∷ ("signatureOfData", 20)
    ∷ ("signatureOfEncrypted", 21)
    ∷ ("pbkdf2_iter", 30)
    ∷ ("pbkdf2_salt", 31)
    ∷ ("mimeType", 40)
    ∷ []

abbrev pub index_to_label : List (ℕ × String)
index_to_label =
    (0, "aesEncrypted")
    ∷ (1, "hmac")
    ∷ (10, "rsaEncrypted")
    ∷ (20, "signatureOfData")
    ∷ (21, "signatureOfEncrypted")
    ∷ (30, "pbkdf2_iter")
    ∷ (31, "pbkdf2_salt")
    ∷ (40, "mimeType")
    ∷ []

-- What every object inherits; `in` finds these names too.
abbrev pub object_prototype : List String
object_prototype =
    "constructor" ∷ "hasOwnProperty" ∷ "isPrototypeOf" ∷ "propertyIsEnumerable" ∷ "toLocaleString"
    ∷ "toString" ∷ "valueOf" ∷ "__proto__" ∷ "__defineGetter__" ∷ "__defineSetter__"
    ∷ "__lookupGetter__" ∷ "__lookupSetter__" ∷ []

unfoldable pub find_index : List (String × ℕ) → String → Option ℕ
find_index [] label = none
find_index ((l, n) ∷ rest) label = if str_eq l label then some n else find_index rest label

unfoldable pub find_label : List (ℕ × String) → ℕ → Option String
find_label [] index = none
find_label ((n, l) ∷ rest) index = if n == index then some l else find_label rest index

unfoldable pub inherited : List String → String → Bool
inherited [] label = false
inherited (l ∷ rest) label = str_eq l label || inherited rest label

-- `LABEL_TO_INDEX[label]` as `setUint8` writes it, and `none` where `label in LABEL_TO_INDEX` is
-- false. What is inherited is an object, which is written as NaN, that is as 0.
unfoldable pub index_of : String → Option ℕ
index_of label = elim (find_index label_to_index label) [
  | some n ↦ some n
  | none ↦ if inherited object_prototype label then some 0 else none
]

-- `INDEX_TO_LABEL[index]`; a missing label is `undefined`, which is "undefined" as a key.
unfoldable pub label_of : ℕ → String
label_of index = elim (find_label index_to_label index) [ some l ↦ l | none ↦ "undefined" ]

-- The first loop of `encode`: it checks the entries and adds up the size.
unfoldable pub measure : Dict → ℕ → Attempt ℕ
measure [] size = ok size
measure ((label, value) ∷ dict) size = elim (index_of label) [
  | none ↦ throw (unsupported_key label)
  | some _ ↦ elim value [
    | array_buffer bs ↦ measure dict (size + 5 + length bs)
    | _ ↦ throw (not_array_buffer label)
  ]
]

-- A store of bytes at an offset, which throws where it would pass the end.
unfoldable pub store : List ℕ → ℕ → List ℕ → Attempt (List ℕ)
store buffer offset bs =
    if leb (offset + length bs) (length buffer)
    then ok (take offset buffer ++ bs ++ drop (offset + length bs) buffer)
    else throw range_error

-- `setUint32`, the highest byte first, modulo 2 ^ 32.
abbrev pub big_endian : ℕ → List ℕ
big_endian n = (n / 2 ^ 24 % 256) ∷ (n / 2 ^ 16 % 256) ∷ (n / 2 ^ 8 % 256) ∷ (n % 256) ∷ []

abbrev pub index_or_zero : Option ℕ → ℕ
index_or_zero none = 0
index_or_zero (some n) = n

-- The second loop of `encode`.
unfoldable pub write : Dict → List ℕ → ℕ → Attempt (List ℕ)
write [] buffer offset = ok buffer
write ((label, value) ∷ dict) buffer offset = do
  buffer₁ ← store buffer offset (index_or_zero (index_of label) ∷ [])
  buffer₂ ← store buffer₁ (offset + 1) (big_endian (length (bytes value)))
  buffer₃ ← store buffer₂ (offset + 5) (bytes value)
  write dict buffer₃ (offset + 5 + length (bytes value))

unfoldable pub encode : Dict → Attempt (List ℕ)
encode dict = do
  size ← measure dict 1
  buffer ← store (replicate size 0) 0 (version ∷ [])
  write dict buffer 1

unfoldable pub get_uint8 : List ℕ → ℕ → Attempt ℕ
get_uint8 buffer offset = elim (get_elem? buffer offset) [
  | some b ↦ ok b
  | none ↦ throw range_error
]

-- `getUint32`, the highest byte first.
unfoldable pub get_uint32 : List ℕ → ℕ → Attempt ℕ
get_uint32 buffer offset = do
  b₀ ← get_uint8 buffer offset
  b₁ ← get_uint8 buffer (offset + 1)
  b₂ ← get_uint8 buffer (offset + 2)
  b₃ ← get_uint8 buffer (offset + 3)
  ok (b₀ * 2 ^ 24 + b₁ * 2 ^ 16 + b₂ * 2 ^ 8 + b₃)

-- `dict[label] = data`: an old entry keeps its place.
unfoldable pub assign : Dict → String → Source → Dict
assign [] label value = (label, value) ∷ []
assign ((l, v) ∷ dict) label value =
    if str_eq l label then (l, value) ∷ dict else (l, v) ∷ assign dict label value

-- The bound adds 5 where it would have to take 5 away; the view throws if it does not fit.
unfoldable pub read_frame : List ℕ → ℕ → ℕ → Attempt Source
read_frame buffer offset size =
    if ltb (length buffer + 5) (size + offset)
    then throw (incorrect_size size (length buffer))
    else sub_view buffer (offset + 5) size

-- The loop of `decode`, with fuel.
unfoldable pub decode_loop : ℕ → List ℕ → ℕ → Dict → Attempt Dict
decode_loop zero buffer offset dict = stuck
decode_loop (suc fuel) buffer offset dict = elim (ltb offset (length buffer)) [
  | false ↦ ok dict
  | true ↦ do
    index ← get_uint8 buffer offset
    size ← get_uint32 buffer (offset + 1)
    frame ← read_frame buffer offset size
    decode_loop fuel buffer (offset + 5 + size) (assign dict (label_of index) frame)
]

-- A round takes five bytes at least, so the buffer's length is fuel enough. The version is read
-- and not looked at.
unfoldable pub decode : Source → Attempt Dict
decode (array_buffer buffer) = do
  version ← get_uint8 buffer 0
  decode_loop (length buffer) buffer 1 []
decode source = throw type_error
