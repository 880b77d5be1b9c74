-- ===== src/Internal/Pbkdf2/Blocks.antt =====
-- The two loops of `compatDerive` against the blocks of PBKDF2.
use crypto_security_projects.Base.{
  ℕ, zero, suc, ◌+◌, ◌*◌, ◌/◌, ◌%◌, ◌<◌, ◌≡◌, ◌≢◌, ◌∙◌, refl, ap, arith, true, false, List, [], ◌∷◌,
  ◌++◌, some, none, length, take, take-length, ltb, ◌==◌, if◌then◌else◌,
}
use crypto_security_projects.Base.Int.{pos}
use crypto_security_projects.Js.{Source, undefined, bytes, fresh}
use crypto_security_projects.Config.{Browser}
use crypto_security_projects.Runtime.{Page, tick, Run, Failure, resolve, attempt}
use crypto_security_projects.Runtime.Delivery.{Delivers}
use crypto_security_projects.WebCrypto.{Crypto, hmac}
use crypto_security_projects.Util.{combine_arrays}
use crypto_security_projects.Util.Text.{bytes-combine_arrays}
use crypto_security_projects.Pack.{big_endian}
use crypto_security_projects.Internal.Sym.Steps.{call-Delivers}
use crypto_security_projects.Internal.Pbkdf2.{
  reached, sign_hmac, derive_block_loop, derive_loop, xor_bytes,
}
use crypto_security_projects.Internal.Pbkdf2.Standard.{
  rounds_from, rounds_from_lem, block, xor_upto,
}

reached_end : (counter : ℕ) → reached counter (some (pos (0 + counter))) ≡ true
unfolding reached
reached_end counter = ground arith

reached_before : (n counter : ℕ) → reached counter (some (pos (suc n + counter))) ≡ false
unfolding reached
reached_before n counter = ground arith

small_big_endian : (i : ℕ) → i < 256 → 0 ∷ 0 ∷ 0 ∷ (i % 256) ∷ [] ≡ big_endian i
small_big_endian i h = ground arith

bytes_joined : (xs ys : List ℕ) → bytes (fresh (bytes (fresh xs) ++ bytes (fresh ys))) ≡ xs ++ ys
bytes_joined xs ys =
    take-length (bytes (fresh xs) ++ bytes (fresh ys))
    ∙ ap (λ (zs : List ℕ). zs ++ bytes (fresh ys)) (take-length xs)
    ∙ ap (λ (zs : List ℕ). xs ++ zs) (take-length ys)

-- A key with which the browser computes `prf`, whenever it is asked.
abbrev pub Computes : (crypto : Crypto) → crypto.Key → (List ℕ → List ℕ) → Type 0
Computes crypto key prf =
    (t : ℕ) (message : Source)
    → message ≢ undefined
    → crypto.sign t hmac key message ≡ resolve (prf (bytes message))

module _ (browser : Browser) (crypto : Crypto) (prf : List ℕ → List ℕ) (key : crypto.Key)
    (computes : Computes crypto key prf) {E : Type 0} where
  open crypto use {Key}

  sign-Delivers :
      (message : Source) (bs : List ℕ) (p : Page Key E)
      → message ≢ undefined
      → bytes message ≡ bs
      → Delivers (sign_hmac browser crypto key message) p (prf bs) (tick p)
  unfolding sign_hmac
  sign-Delivers message bs p defined same =
      call-Delivers browser crypto _
        (computes p.clock message defined ∙ ap (λ (m : List ℕ). resolve (prf m)) same)

  -- The inner loop ends after as many rounds as are missing.
  derive_block_loop-Delivers :
      (n fuel counter : ℕ) (acc u : List ℕ) (p : Page Key E)
      → n < fuel
      → (q : Page Key E) × Delivers
          (derive_block_loop browser crypto fuel key acc u counter (some (pos (n + counter))))
          p
          (rounds_from prf n acc u)
          q
  unfolding derive_block_loop
  derive_block_loop-Delivers n zero counter acc u p h = absurd (omega arith)
  derive_block_loop-Delivers zero (suc fuel) counter acc u p h =
      (p, λ e k quiet. rw (reached_end counter) refl)
  derive_block_loop-Delivers (suc n) (suc fuel) counter acc u p h =
      let place : suc n + counter ≡ n + (counter + 1) = omega arith in
      let (q, rest) =
        derive_block_loop-Delivers n fuel (counter + 1) (xor_bytes acc (prf u)) (prf u) (tick p)
          (omega arith) in
      (
        q,
        λ e k quiet.
            let last =
              ap
                (λ (m : ℕ).
                  derive_block_loop browser crypto fuel key (xor_bytes acc (prf u)) (prf u)
                    (counter + 1) (some (pos m)) e k (tick p))
                place
              ∙ rest e k quiet in
            rw (reached_before n counter) (
              sign-Delivers (fresh u) u p (λ same. cc) (take-length u) e _
                (ap (λ o. o.thrown) last ∙ quiet)
              ∙ last),
      )

  -- The inner loop, as the outer loop calls it, delivers a block.
  block-Delivers :
      (c : ℕ) (first : List ℕ) (p : Page Key E)
      → (q : Page Key E) × Delivers
          (derive_block_loop browser crypto (suc c) key first first 1 (some (pos (suc c))))
          p
          (xor_upto prf c first)
          q
  block-Delivers c first p =
      let (q, loop) = derive_block_loop-Delivers c (suc c) 1 first first p (omega arith) in
      let place : suc c ≡ c + 1 = omega arith in
      (
        q,
        λ e k quiet.
            let same = ap (λ (u : List ℕ). k u q) (rounds_from_lem prf c first) in
            ap
              (λ (m : ℕ).
                derive_block_loop browser crypto (suc c) key first first 1 (some (pos m)) e k p)
              place
            ∙ loop e k (ap (λ o. o.thrown) same ∙ quiet)
            ∙ same,
      )

  module _ (salt : Source) (defined : salt ≢ undefined) (c : ℕ) (n : ℕ) where
    -- The end of a turn of the outer loop, with what the turn has put out.
    abbrev pub finish_turn : ℕ → ℕ → List ℕ → Failure Key E → (List ℕ → Run Key E) → Run Key E
    finish_turn fuel i new e k =
        if length new * 8 == n * 8
        then k new
        else if ltb (n * 8) (length new * 8)
        then k (take (n * 8 / 8) new)
        else derive_loop browser crypto fuel key (i + 1) (n * 8) salt (some (pos (suc c))) new e k

    -- A turn puts out the block of its number, below 256, and goes on.
    pub turn-Delivers :
        (fuel i : ℕ) (output : List ℕ) (p : Page Key E)
        → i < 256
        → (q : Page Key E) × ((e : Failure Key E) (k : List ℕ → Run Key E)
            → (finish_turn fuel i (output ++ block prf (bytes salt) (suc c) i) e k q).thrown ≡ none
            → derive_loop browser crypto
                (suc fuel)
                key
                i
                (n * 8)
                salt
                (some (pos (suc c)))
                output
                e
                k
                p
              ≡ finish_turn fuel i (output ++ block prf (bytes salt) (suc c) i) e k q)
    unfolding derive_loop attempt
    turn-Delivers fuel i output p small =
        let number = fresh (0 ∷ 0 ∷ 0 ∷ (i % 256) ∷ []) in
        let block_data = fresh (bytes salt ++ bytes number) in
        let same_data : bytes block_data ≡ bytes salt ++ big_endian i =
          take-length (bytes salt ++ bytes number)
          ∙ ap (λ (bs : List ℕ). bytes salt ++ bs) (small_big_endian i small) in
        let first = prf (bytes salt ++ big_endian i) in
        let (q, loop) = block-Delivers c first (tick p) in
        (
          q,
          λ e k quiet.
              let finish : Source → Run Key E =
                λ new_output. finish_turn fuel i (bytes new_output) e k in
              let after : List ℕ → Run Key E =
                λ u₁. attempt (combine_arrays (fresh output) (fresh u₁)) finish in
              let turn : List ℕ → Run Key E = λ mac.
                derive_block_loop browser crypto (suc c) key mac mac 1 (some (pos (suc c))) e
                  after in
              let joined : after (xor_upto prf c first) q
                  ≡ finish_turn fuel i (output ++ xor_upto prf c first) e k q =
                ap (λ m. attempt m finish q)
                  (bytes-combine_arrays (fresh output) (fresh (xor_upto prf c first)) (λ s. cc)
                    (λ s. cc))
                ∙ ap (λ (bs : List ℕ). finish_turn fuel i bs e k q)
                    (bytes_joined output (xor_upto prf c first)) in
              let looped = loop e after (ap (λ o. o.thrown) joined ∙ quiet) ∙ joined in
              ap (λ m. attempt m (λ d. sign_hmac browser crypto key d e turn) p)
                (bytes-combine_arrays salt number defined (λ s. cc))
              ∙ sign-Delivers block_data _ p (λ s. cc) same_data e turn
                  (ap (λ o. o.thrown) looped ∙ quiet)
              ∙ looped,
        )
