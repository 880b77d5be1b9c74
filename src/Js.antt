-- ===== src/Js.antt =====
-- What the JavaScript runtime gives to the code of www/js/lib/simplecrypto.js: exceptions, byte
-- buffers and the typed arrays over them.
pub mod Objects
use crypto_security_projects.Base.Int.{ℤ}
use crypto_security_projects.Base.{
  ℕ, ◌+◌, ◌%◌, List, [], map, String, length, take, drop, leb, if◌then◌else◌,
}

-- What is thrown, or handed to an `onError` callback by the platform.
pub data Exn : Type 0 where
  range_error : Exn
  type_error : Exn
  -- "Unsupported key: " + label
  unsupported_key : String → Exn
  -- "Value is not ArrayBuffer: " + label
  not_array_buffer : String → Exn
  -- "Incorrect size " + size + byteLength
  incorrect_size : ℕ → ℕ → Exn
  -- "Invalid max value" + max
  invalid_max : ℤ → Exn
  -- JSON that does not parse.
  syntax_error : Exn
  -- An exception of the browser's own making.
  platform : ℕ → Exn

-- The result of code that may throw. `stuck` is no JavaScript value: a loop ran out of fuel.
pub data Attempt {ℓ} (A : Type ℓ) : Type ℓ where
  ok : A → Attempt A
  throw : Exn → Attempt A
  stuck : Attempt A

infixl 5 ◌>>=◌ ◌>>◌
abbrev pub ◌>>=◌ {ℓ κ} : {A : Type ℓ} {B : Type κ} → Attempt A → (A → Attempt B) → Attempt B
ok a >>= f = f a
throw e >>= f = throw e
stuck >>= f = stuck

abbrev pub ◌>>◌ {ℓ} : {B : Type ℓ} → Attempt (Unit {0}) → Attempt B → Attempt B
m >> k = m >>= λ _. k

-- A value where the code expects bytes. A byte is a number below 256.
pub data Source : Type 0 where
  array_buffer : List ℕ → Source
  -- A Uint8Array: its buffer, its byteOffset and its length.
  uint8_array : List ℕ → ℕ → ℕ → Source
  -- A plain Array of numbers.
  array : List ℕ → Source
  -- The argument is missing.
  undefined : Source

-- The bytes that a value holds; an Array's numbers as `new Uint8Array` converts them.
abbrev pub bytes : Source → List ℕ
bytes (array_buffer bs) = bs
bytes (uint8_array bs offset len) = take len (drop offset bs)
bytes (array ns) = map (λ n. n % 256) ns
bytes undefined = []

-- `new Uint8Array(bs)` over a fresh copy of bytes, the whole of its buffer.
abbrev pub fresh : List ℕ → Source
fresh bs = uint8_array bs 0 (length bs)

-- `new Uint8Array(buffer, offset, len)` and `new Uint8Array(buffer, offset)` on an ArrayBuffer.
unfoldable pub sub_view : List ℕ → ℕ → ℕ → Attempt Source
sub_view bs offset len =
    if leb (offset + len) (length bs) then ok (uint8_array bs offset len) else throw range_error
