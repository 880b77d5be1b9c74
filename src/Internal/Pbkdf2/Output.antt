-- ===== src/Internal/Pbkdf2/Output.antt =====
-- The outer loop of `compatDerive`: it puts out a key of PBKDF2.
use crypto_security_projects.Base.{
  ℕ, zero, suc, ◌+◌, ◌*◌, ◌/◌, ◌<◌, ◌≤◌, ◌≡◌, ◌≢◌, ◌∙◌, refl, ap, sym, arith, List, [], ◌∷◌, ◌++◌,
  append_assoc, append-nil, some, length, length-append, take, take-length, length-take, ltb, ◌==◌,
  if◌then◌else◌,
}
use crypto_security_projects.Base.Int.{pos}
use crypto_security_projects.Js.{Source, undefined, bytes}
use crypto_security_projects.Config.{Browser}
use crypto_security_projects.Runtime.{Page, Run}
use crypto_security_projects.Runtime.Delivery.{Delivers}
use crypto_security_projects.WebCrypto.{Crypto}
use crypto_security_projects.Internal.Pbkdf2.{derive_loop, xor_bytes}
use crypto_security_projects.Internal.Pbkdf2.Standard.{derived_key, block, blocks, xor_upto}
use crypto_security_projects.Internal.Pbkdf2.Blocks.{Computes, turn-Delivers}

length-xor_bytes : (xs ys : List ℕ) → length (xor_bytes xs ys) ≡ length xs
length-xor_bytes [] ys = refl
length-xor_bytes (x ∷ xs) [] = ap suc (length-xor_bytes xs [])
length-xor_bytes (x ∷ xs) (y ∷ ys) = ap suc (length-xor_bytes xs ys)

module _ (prf : List ℕ → List ℕ) (sized : (bs : List ℕ) → length (prf bs) ≡ 20) where
  length-xor_upto :
      (m : ℕ) (first : List ℕ) → length first ≡ 20 → length (xor_upto prf m first) ≡ 20
  length-xor_upto zero first h = h
  length-xor_upto (suc m) first h =
      length-xor_bytes (xor_upto prf m first) _ ∙ length-xor_upto m first h

  length-block : (salt : List ℕ) (c i : ℕ) → length (block prf salt (suc c) i) ≡ 20
  length-block salt c i = length-xor_upto c _ (sized _)

  length-blocks : (salt : List ℕ) (c m i : ℕ) → length (blocks prf salt (suc c) m i) ≡ 20 * m
  length-blocks salt c zero i = refl
  length-blocks salt c (suc m) i = omega (
    arith,
    length-append (block prf salt (suc c) i) (blocks prf salt (suc c) m (i + 1)),
    length-block salt c i,
    length-blocks salt c m (i + 1),
  )

  pub length-derived_key : (salt : List ℕ) (c n : ℕ) → length (derived_key prf salt (suc c) n) ≡ n
  length-derived_key salt c n = omega (
    arith,
    length-take n (blocks prf salt (suc c) ((n + 19) / 20) 1),
    length-blocks salt c ((n + 19) / 20) 1,
  )

stopped :
    {A : Type 0} (n : ℕ) (new : List ℕ) (k : List ℕ → A) (rest : A)
    → n ≤ length new
    → (if length new * 8 == n * 8
        then k new
        else if ltb (n * 8) (length new * 8)
        then k (take (n * 8 / 8) new)
        else rest)
      ≡ k (take n new)
stopped n new k rest h =
    let whole : length new ≡ n → k new ≡ k (take n new) =
      λ e. ap k (sym (take-length new)) ∙ ap (λ (m : ℕ). k (take m new)) e in
    let part : k (take (n * 8 / 8) new) ≡ k (take n new) =
      let same : n * 8 / 8 ≡ n = omega arith in ap (λ (m : ℕ). k (take m new)) same in
    ground (arith, whole, part)

continued :
    {A : Type 0} (n : ℕ) (new : List ℕ) (all part rest : A)
    → length new < n
    → (if length new * 8 == n * 8 then all else if ltb (n * 8) (length new * 8) then part else rest)
      ≡ rest
continued n new all part rest h = ground arith

module _ (browser : Browser) (crypto : Crypto) (prf : List ℕ → List ℕ) (key : crypto.Key)
    (computes : Computes crypto key prf) (sized : (bs : List ℕ) → length (prf bs) ≡ 20)
    (salt : Source) (defined : salt ≢ undefined) (c : ℕ) (n : ℕ) {E : Type 0} where
  open crypto use {Key}

  -- The outer loop ends with the turn that reaches the length, and takes what is asked for.
  pub derive_loop-Delivers :
      (more fuel i : ℕ) (output : List ℕ) (p : Page Key E)
      → more < fuel
      → i + more < 256
      → length output + 20 * more < n
      → n ≤ length output + 20 * more + 20
      → (q : Page Key E) × Delivers
          (derive_loop browser crypto fuel key i (n * 8) salt (some (pos (suc c))) output)
          p
          (take n (output ++ blocks prf (bytes salt) (suc c) (suc more) i))
          q
  derive_loop-Delivers more zero i output p h small low high = absurd (omega arith)
  derive_loop-Delivers zero (suc fuel) i output p h small low high =
      let new = output ++ block prf (bytes salt) (suc c) i in
      let reaches : n ≤ length new = omega (
        arith,
        length-append output (block prf (bytes salt) (suc c) i),
        length-block prf sized (bytes salt) c i,
      ) in
      let (q, turn) =
        turn-Delivers browser crypto prf key computes salt defined c n fuel i output p
          (omega arith) in
      (
        q,
        λ e k quiet.
            let ended =
              ap (λ (m : Run Key E). m q) (stopped n new k _ reaches)
              ∙ ap (λ (bs : List ℕ). k (take n (output ++ bs)) q)
                  (sym (append-nil (block prf (bytes salt) (suc c) i))) in
            turn e k (ap (λ o. o.thrown) ended ∙ quiet) ∙ ended,
      )
  derive_loop-Delivers (suc more) (suc fuel) i output p h small low high =
      let this = block prf (bytes salt) (suc c) i in
      let new = output ++ this in
      let grown : length new ≡ length output + 20 =
        omega (arith, length-append output this, length-block prf sized (bytes salt) c i) in
      let (q, turn) =
        turn-Delivers browser crypto prf key computes salt defined c n fuel i output p
          (omega arith) in
      let (r, rest) =
        derive_loop-Delivers more fuel (i + 1) new q (omega arith) (omega arith) (omega arith)
          (omega arith) in
      (
        r,
        λ e k quiet.
            let same =
              ap (λ (bs : List ℕ). k (take n bs) r)
                (append_assoc output this (blocks prf (bytes salt) (suc c) (suc more) (i + 1))) in
            let ended =
              ap (λ (m : Run Key E). m q) (continued n new _ _ _ (omega arith))
              ∙ rest e k (ap (λ o. o.thrown) same ∙ quiet)
              ∙ same in
            turn e k (ap (λ o. o.thrown) ended ∙ quiet) ∙ ended,
      )
