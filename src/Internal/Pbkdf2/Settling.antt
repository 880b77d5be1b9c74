-- ===== src/Internal/Pbkdf2/Settling.antt =====
-- `compatDerive` ends, and calls one of its callbacks, once.
use crypto_security_projects.Base.{
  ℕ, zero, suc, ◌+◌, ◌*◌, ◌/◌, ◌%◌, ◌<◌, ◌≤◌, ◌≡◌, ◌≢◌, ◌⊎◌, ◌∙◌, refl, ap, subst, arith, true,
  List, [], ◌∷◌, ◌++◌, Option, none, some, inl, inr, length, length-append, take-length, ltb, ◌==◌,
  ==_iff,
}
use crypto_security_projects.Base.Int.{ℤ, pos}
use crypto_security_projects.Js.{stuck, Source, bytes, fresh}
use crypto_security_projects.Config.{Browser, pbkdf2_min_iterations}
use crypto_security_projects.Runtime.{Arg, Run, Failure, resolve}
use crypto_security_projects.Runtime.Settling.{
  Answers, Settles, attempt-Settles, attempt_ok-Settles, Option-Settles, ask-Settles,
  if_known-Settles,
}
use crypto_security_projects.WebCrypto.{Crypto, hmac}
use crypto_security_projects.Util.{combine_arrays, get_random}
use crypto_security_projects.Util.Text.{bytes-combine_arrays}
use crypto_security_projects.Internal.Sym.Settling.{
  call-Settles, call_resolved-Settles, combine_arrays-ne-stuck,
}
use crypto_security_projects.Internal.Pbkdf2.{
  Options, Derived, given_iterations, xor_bytes, reached, sign_hmac, import_key_hmac,
  derive_block_loop, derive_loop, given_salt, choose_salt, choose_iterations, compat_derive,
}

length-xor_bytes : (xs ys : List ℕ) → length (xor_bytes xs ys) ≡ length xs
length-xor_bytes [] ys = refl
length-xor_bytes (x ∷ xs) [] = ap suc (length-xor_bytes xs [])
length-xor_bytes (x ∷ xs) (y ∷ ys) = ap suc (length-xor_bytes xs ys)

-- The browser's HMAC has a byte at least.
abbrev pub HasBytes : Crypto → Type 0
HasBytes crypto =
    (t : ℕ) (key : crypto.Key) (message : Source) (mac : List ℕ)
    → crypto.sign t hmac key message ≡ resolve mac
    → 0 < length mac

get_random-ne-stuck : (max sample : ℕ) → get_random (pos max) sample ≢ stuck
unfolding get_random
get_random-ne-stuck max sample e = ground arith

length-grown :
    (xs ys : List ℕ)
    → length (bytes (fresh (bytes (fresh xs) ++ bytes (fresh ys)))) ≡ length xs + length ys
length-grown xs ys =
    ap length (take-length (bytes (fresh xs) ++ bytes (fresh ys)))
    ∙ length-append (bytes (fresh xs)) (bytes (fresh ys))
    ∙ omega (arith, ap length (take-length xs), ap length (take-length ys))

-- The options give no number of iterations, or one of at least 1.
abbrev pub Counted : Options → Type 0
Counted options =
    (given_iterations options.iterations ≡ none)
    ⊎ (c : ℕ) × (given_iterations options.iterations ≡ some (some (pos (suc c))))

module _ (browser : Browser) (promises : browser.has_then ≡ true) (crypto : Crypto)
    (has_bytes : HasBytes crypto) {E : Type 0} where
  open crypto use {Key}

  -- The counter reaches the number of iterations before the fuel runs out, and the block is as long
  -- as the first HMAC.
  derive_block_loop-Settles :
      (fuel : ℕ) (key : Key) (u₁ u : List ℕ) (counter n : ℕ) (e : Failure Key E)
      (k : List ℕ → Run Key E)
      → 0 < fuel
      → fuel + counter ≡ suc n
      → ((args : List Arg) → Answers (e args))
      → ((block : List ℕ) → length block ≡ length u₁ → Settles (k block))
      → Settles (derive_block_loop browser crypto fuel key u₁ u counter (some (pos n)) e k)
  unfolding derive_block_loop reached sign_hmac
  derive_block_loop-Settles zero key u₁ u counter n e k positive enough ea ks = absurd (omega arith)
  derive_block_loop-Settles (suc fuel) key u₁ u counter n e k positive enough ea ks =
      if_known-Settles (counter == n) (k u₁) _ (λ last. ks u₁ refl)
        λ more. call-Settles browser promises crypto _ e _ ea λ new.
          derive_block_loop-Settles fuel key (xor_bytes u₁ new) new (counter + 1) n e k
            (ground (arith, ==_iff counter n)) (omega arith) ea
            λ block same. ks block (same ∙ length-xor_bytes u₁ new)

  -- The output grows by a byte or more in each round, so it gets long enough before the fuel runs
  -- out.
  derive_loop-Settles :
      (fuel : ℕ) (key : Key) (block bits : ℕ) (salt : Source) (c : ℕ) (output : List ℕ)
      (e : Failure Key E) (k : List ℕ → Run Key E)
      → length output * 8 ≤ bits
      → bits < (length output + fuel) * 8
      → ((args : List Arg) → Answers (e args))
      → ((derived : List ℕ) → Settles (k derived))
      → Settles
          (derive_loop browser crypto fuel key block bits salt (some (pos (suc c))) output e k)
  unfolding derive_loop sign_hmac
  derive_loop-Settles zero key block bits salt c output e k short enough ea ks =
      absurd (omega arith)
  derive_loop-Settles (suc fuel) key block bits salt c output e k short enough ea ks =
      attempt-Settles (combine_arrays salt (fresh (0 ∷ 0 ∷ 0 ∷ (block % 256) ∷ []))) _
        (combine_arrays-ne-stuck salt (fresh (0 ∷ 0 ∷ 0 ∷ (block % 256) ∷ [])))
        λ block_data. call_resolved-Settles browser promises crypto _ e _ ea λ t mac resolved.
          derive_block_loop-Settles (suc c) key mac mac 1 (suc c) e _ (omega arith) (omega arith) ea
            λ u₁ same.
              let grown : List ℕ = bytes (fresh output) ++ bytes (fresh u₁) in
              let sized : length (bytes (fresh grown)) ≡ length output + length mac =
                length-grown output u₁ ∙ ap (λ (n : ℕ). length output + n) same in
              let longer : 0 < length mac = has_bytes t key block_data mac resolved in
              attempt_ok-Settles _
                (bytes-combine_arrays (fresh output) (fresh u₁) (λ x. cc) (λ x. cc))
                (if_known-Settles (length (bytes (fresh grown)) * 8 == bits) _ _ (λ full. ks _)
                  λ not_full.
                    if_known-Settles (ltb bits (length (bytes (fresh grown)) * 8)) _ _
                      (λ over. ks _)
                      λ not_over.
                        derive_loop-Settles fuel key (block + 1) bits salt c (bytes (fresh grown)) e
                          k (ground (arith, not_over)) (omega (arith, sized, longer, enough)) ea ks)

  choose_salt-Settles :
      (options : Options) (k : Source → Run Key E)
      → ((salt : Source) → Settles (k salt))
      → Settles (choose_salt browser crypto options k)
  unfolding choose_salt
  choose_salt-Settles options k ks =
      Option-Settles (given_salt options.salt) _ k (ask-Settles _ k ks) ks

  choose_iterations-Settles :
      (options : Options) (k : Option ℤ → Run Key E)
      → Counted options
      → ((c : ℕ) → Settles (k (some (pos (suc c)))))
      → Settles (choose_iterations browser crypto options k)
  unfolding choose_iterations
  choose_iterations-Settles options k (inl missing) ks p =
      rw (choose_iterations, missing)
        (ask-Settles crypto.random_uint16 _
          (λ sample.
            attempt-Settles (get_random (pos 4000) sample) _ (get_random-ne-stuck 4000 sample) λ n.
              let same : suc (n + 19999) ≡ n + pbkdf2_min_iterations = omega arith in
              subst (λ (m : ℕ). Settles (k (some (pos m)))) same (ks (n + 19999)))
          p)
  choose_iterations-Settles options k (inr (c, given)) ks p = rw (choose_iterations, given) (ks c p)

  -- With promises, a browser whose HMAC has a byte at least, and options that give no number of
  -- iterations or one of at least 1, `compatDerive` ends, for any password, salt and number of bits
  -- and whatever the browser does. For an `onError` that always shows one event and does not throw,
  -- and an `onSuccess` that shows one event, or throws before it shows any, the run shows exactly
  -- one event of theirs, or it throws and shows none.
  pub compat_derive-Settles :
      (password : List ℕ) (bits : ℕ) (options : Options) (e : Failure Key E)
      (k : Derived → Run Key E)
      → Counted options
      → ((args : List Arg) → Answers (e args))
      → ((derived : Derived) → Settles (k derived))
      → Settles (compat_derive browser crypto password bits options e k)
  unfolding compat_derive import_key_hmac
  compat_derive-Settles password bits options e k counted ea ks =
      choose_salt-Settles options _ λ salt. choose_iterations-Settles options _ counted λ c.
        call-Settles browser promises crypto _ e _ ea λ key.
          derive_loop-Settles (bits / 8 + 1) key 1 bits salt c [] e _ (omega arith) (omega arith) ea
            λ derived. ks _
