-- ===== src/Internal/Pbkdf2/Standard.antt =====
-- PBKDF2 as RFC 2898 defines it, on its own: against it stands `compatDerive`.
use crypto_security_projects.Base.{
  ℕ, zero, suc, ◌+◌, ◌/◌, ◌≡◌, List, [], ◌++◌, take, ap, ◌∙◌, arith,
}
use crypto_security_projects.Pack.{big_endian}
use crypto_security_projects.Internal.Pbkdf2.{xor_bytes}

module _ (prf : List ℕ → List ℕ) where
  -- U_1 = `first`, and U_(n + 1) is the function of U_n.
  abbrev pub iterate : ℕ → List ℕ → List ℕ
  iterate zero first = first
  iterate (suc n) first = prf (iterate n first)

  -- The exclusive or of U_1 to U_(n + 1).
  abbrev pub xor_upto : ℕ → List ℕ → List ℕ
  xor_upto zero first = first
  xor_upto (suc n) first = xor_bytes (xor_upto n first) (iterate (suc n) first)

  -- The exclusive or of so many U, one at least.
  abbrev pub xor_count : ℕ → List ℕ → List ℕ
  xor_count zero first = []
  xor_count (suc c) first = xor_upto c first

  module _ (salt : List ℕ) (count : ℕ) where
    -- The block with the given number, of `count` iterations.
    abbrev pub block : ℕ → List ℕ
    block i = xor_count count (prf (salt ++ big_endian i))

    -- So many blocks, from the given number on.
    abbrev pub blocks : ℕ → ℕ → List ℕ
    blocks zero i = []
    blocks (suc n) i = block i ++ blocks n (i + 1)

    -- A key of `n` bytes, from blocks of 20 bytes.
    abbrev pub derived_key : ℕ → List ℕ
    derived_key n = take n (blocks ((n + 19) / 20) 1)

  -- The rounds as the code makes them: it carries the exclusive or and the last U.
  abbrev pub rounds_from : ℕ → List ℕ → List ℕ → List ℕ
  rounds_from zero acc u = acc
  rounds_from (suc n) acc u = rounds_from n (xor_bytes acc (prf u)) (prf u)

  rounds_from_upto :
      (n done : ℕ) (first : List ℕ)
      → rounds_from n (xor_upto done first) (iterate done first) ≡ xor_upto (n + done) first
  rounds_from_upto zero done first =
      let same : done ≡ 0 + done = omega arith in ap (λ (m : ℕ). xor_upto m first) same
  rounds_from_upto (suc n) done first =
      let same : n + suc done ≡ suc n + done = omega arith in
      rounds_from_upto n (suc done) first ∙ ap (λ (m : ℕ). xor_upto m first) same

  pub rounds_from_lem : (n : ℕ) (first : List ℕ) → rounds_from n first first ≡ xor_upto n first
  rounds_from_lem n first =
      let same : n + 0 ≡ n = omega arith in
      rounds_from_upto n 0 first ∙ ap (λ (m : ℕ). xor_upto m first) same
