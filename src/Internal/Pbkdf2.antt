-- ===== src/Internal/Pbkdf2.antt =====
-- `internal.pbkdf2` of simplecrypto.js: a key from a password, by the browser's PBKDF2 or, where it
-- has none, by `compatDerive`, which needs HMAC alone.
pub mod Standard
pub mod Blocks
pub mod Output
pub mod Compat
pub mod Settling
use Prim.Native.Nat.{bit_xor}
use crypto_security_projects.Base.{
  ℕ, zero, suc, ◌+◌, ◌*◌, ◌/◌, ◌%◌, Bool, false, List, [], ◌∷◌, Option, none, some, length, take,
  ltb, ◌==◌, if◌then◌else◌,
}
use crypto_security_projects.Base.Int.{ℤ, pos}
use crypto_security_projects.Js.{Source, array_buffer, uint8_array, array, undefined, bytes, fresh}
use crypto_security_projects.Config.{Browser, pbkdf2_min_iterations}
use crypto_security_projects.Runtime.{Run, Failure, stalled, report, attempt, ask}
use crypto_security_projects.WebCrypto.{Crypto, Usage, Algorithm, pbkdf2, pbkdf2_bits}
use crypto_security_projects.Util.{
  combine_arrays, string_to_bytes, sum_bytes, uint32_to_buffer, get_random,
}
use crypto_security_projects.Internal.Sym.{call, buffer_of}

-- `options.iterations`: missing, a number, or an object, which may be a buffer, an Array or
-- `undefined`.
pub data Count : Type 0 where
  missing : Count
  number : ℕ → Count
  held : Source → Count

pub record Options : Type 0 where
  pub salt : Option Source
  pub iterations : Count

-- `{salt, iterations, derived}`
pub record Derived : Type 0 where
  pub salt : Source
  pub iterations : List ℕ
  pub derived : List ℕ

-- The salt that the options give; `undefined` counts as missing.
abbrev pub given_salt : Option Source → Option Source
given_salt none = none
given_salt (some undefined) = none
given_salt (some (array_buffer bs)) = some (array_buffer bs)
given_salt (some (uint8_array bs offset len)) = some (uint8_array bs offset len)
given_salt (some (array ns)) = some (array ns)

-- The number that an Array stands for where a number is wanted: it is turned into the text of its
-- elements, with commas between them. No element gives the empty text, which is 0, and a text with a
-- comma is NaN.
abbrev pub number_of_array : List ℕ → Option ℤ
number_of_array [] = some (pos 0)
number_of_array (n ∷ []) = some (pos n)
number_of_array (m ∷ n ∷ ns) = none

-- The number of iterations that the options give; the inner `none` is NaN. A number of 0 and
-- `undefined` are no true values, so they count as missing. An ArrayBuffer or a Uint8Array is read
-- by `bufferToUint32`, which gives `sum_bytes` of its bytes. Anything else is used as it is: `==`,
-- `uint32toBuffer` and the browser take it as a number.
unfoldable pub given_iterations : Count → Option (Option ℤ)
given_iterations missing = none
given_iterations (number zero) = none
given_iterations (number (suc n)) = some (some (pos (suc n)))
given_iterations (held undefined) = none
given_iterations (held (array_buffer bs)) = some (sum_bytes bs)
given_iterations (held (uint8_array bs offset len)) =
    some (sum_bytes (bytes (uint8_array bs offset len)))
given_iterations (held (array ns)) = some (number_of_array ns)

-- `util.uint32toBuffer(iterations)`; NaN is stored as 0.
abbrev pub iterations_buffer : Option ℤ → List ℕ
iterations_buffer none = uint32_to_buffer (pos 0)
iterations_buffer (some n) = uint32_to_buffer n

abbrev pub result : Source → Option ℤ → List ℕ → Derived
result salt iterations derived = record {
  salt = buffer_of salt;
  iterations = iterations_buffer iterations;
  derived = derived;
}

-- `U_1[i] ^= new_U_n[i]` for every index of `U_1`; a missing byte is `undefined`, which counts as 0.
abbrev pub xor_bytes : List ℕ → List ℕ → List ℕ
xor_bytes [] ys = []
xor_bytes (x ∷ xs) [] = x ∷ xor_bytes xs []
xor_bytes (x ∷ xs) (y ∷ ys) = bit_xor x y ∷ xor_bytes xs ys

-- `counter == iterations`
unfoldable pub reached : ℕ → Option ℤ → Bool
reached counter (some (pos n)) = counter == n
reached counter _ = false

-- The rounds of the inner loop: it does not end for a number below 1, which no counter reaches.
abbrev pub rounds : Option ℤ → ℕ
rounds (some (pos n)) = n
rounds _ = 0

module _ (browser : Browser) (crypto : Crypto) {E : Type 0} where
  open crypto use {Key}

  -- `options.salt || getRandomValues(new Uint8Array(16))`
  unfoldable pub choose_salt : Options → (Source → Run Key E) → Run Key E
  choose_salt options k = elim (given_salt options.salt) [
    | some salt ↦ k salt
    | none ↦ ask (λ t. fresh (crypto.random_bytes t 16)) k
  ]

  unfoldable pub choose_iterations : Options → (Option ℤ → Run Key E) → Run Key E
  choose_iterations options k = elim (given_iterations options.iterations) [
    | some iterations ↦ k iterations
    | none ↦ ask crypto.random_uint16 λ sample.
        attempt (get_random (pos 4000) sample) λ n. k (some (pos (n + pbkdf2_min_iterations)))
  ]

  -- A password is the list of its code units.
  unfoldable pub password_to_key : List ℕ → Failure Key E → (Key → Run Key E) → Run Key E
  password_to_key password =
      call browser crypto
        λ t. crypto.import_raw t (string_to_bytes password) pbkdf2 false (Usage.derive_bits ∷ [])

  unfoldable pub derive_bits : Key → ℕ → Options → Failure Key E → (Derived → Run Key E) → Run Key E
  derive_bits key bits options on_error on_success = choose_salt options λ salt.
      choose_iterations options λ iterations.
        call browser crypto (λ t. crypto.derive_bits t (pbkdf2_bits salt iterations) key bits)
          on_error λ derived. on_success (result salt iterations derived)

  unfoldable pub import_key_hmac : List ℕ → Failure Key E → (Key → Run Key E) → Run Key E
  import_key_hmac password = call browser crypto λ t.
      crypto.import_raw t (string_to_bytes password) Algorithm.hmac false
        (Usage.sign ∷ Usage.verify ∷ [])

  unfoldable pub sign_hmac : Key → Source → Failure Key E → (List ℕ → Run Key E) → Run Key E
  sign_hmac key message = call browser crypto λ t. crypto.sign t Algorithm.hmac key message

  -- `deriveBlockLoop`. `U_1` and `U_n` may be the same array, but `U_n` is read before `U_1` changes,
  -- and a new `U_n` takes its place.
  unfoldable pub derive_block_loop :
      ℕ → Key → List ℕ → List ℕ → ℕ → Option ℤ → Failure Key E → (List ℕ → Run Key E) → Run Key E
  derive_block_loop zero key u₁ u counter iterations on_error on_success = report stalled
  derive_block_loop (suc fuel) key u₁ u counter iterations on_error on_success =
      if reached counter iterations
      then on_success u₁
      else sign_hmac key (fresh u) on_error λ new.
        derive_block_loop fuel key (xor_bytes u₁ new) new (counter + 1) iterations on_error
          on_success

  -- `deriveLoop`. The length is `bits / 8`, which need not be whole. A block's number is stored as
  -- one byte.
  unfoldable pub derive_loop :
      ℕ
      → Key
      → ℕ
      → ℕ
      → Source
      → Option ℤ
      → List ℕ
      → Failure Key E
      → (List ℕ → Run Key E)
      → Run Key E
  derive_loop zero key block bits salt iterations output on_error on_success = report stalled
  derive_loop (suc fuel) key block bits salt iterations output on_error on_success =
      attempt (combine_arrays salt (fresh (0 ∷ 0 ∷ 0 ∷ (block % 256) ∷ []))) λ block_data.
        sign_hmac key block_data on_error λ hmac.
          derive_block_loop (rounds iterations) key hmac hmac 1 iterations on_error λ u₁.
            attempt (combine_arrays (fresh output) (fresh u₁)) λ new_output.
              let new = bytes new_output in
              if length new * 8 == bits
              then on_success new
              else if ltb bits (length new * 8)
              then on_success (take (bits / 8) new)
              else derive_loop fuel key (block + 1) bits salt iterations new on_error on_success

  -- A block is a byte or more, so a block for each byte is enough.
  unfoldable pub compat_derive :
      List ℕ → ℕ → Options → Failure Key E → (Derived → Run Key E) → Run Key E
  compat_derive password bits options on_error on_success = choose_salt options λ salt.
      choose_iterations options λ iterations. import_key_hmac password on_error λ key.
        derive_loop (bits / 8 + 1) key 1 bits salt iterations [] on_error
          λ derived. on_success (result salt iterations derived)
