-- ===== src/Pack/RoundTrip.antt =====
-- `pack.decode` after `pack.encode`.
use crypto_security_projects.Base.{
  ℕ, ◌^◌, ◌<◌, ◌≡◌, ◌∙◌, refl, ap, sym, arith, List, [], ◌∷◌, ◌++◌, String, length, str_eq_iff,
  append_assoc, append-nil, All, some, ◌≢◌,
}
use crypto_security_projects.Js.{Source, bytes, ok, array_buffer}
use crypto_security_projects.Pack.{
  index_of, index_or_zero, Dict, encode, decode, version, label_to_index, find_index, label_of,
  find_label,
}
use crypto_security_projects.Pack.Format.{layout, Fits, contents, assign_bytes, entries_of}
use crypto_security_projects.Pack.Encode.{IsEntry, frames_of, encode-layout}
use crypto_security_projects.Pack.Decode.{decode-layout}

-- An entry of a message: one of the eight labels, with a buffer whose size fits four bytes.
abbrev pub IsField : String × Source → Type 0
IsField (label, value) =
    ((n : ℕ) × (find_index label_to_index label ≡ some n))
    × ((bs : List ℕ) × (value ≡ array_buffer bs) × (length bs < 2 ^ 32))

-- No label stands twice.
abbrev pub Distinct : Dict → Type 0
Distinct [] = Unit
Distinct ((label, value) ∷ dict) = All (λ entry. label ≢ entry.0) dict × Distinct dict

find_index-inverse :
    (table : List (String × ℕ)) (label : String) (n : ℕ)
    → All (λ entry. label_of entry.1 ≡ entry.0) table
    → find_index table label ≡ some n
    → label_of n ≡ label
unfolding find_index
find_index-inverse [] label n h e = cc
find_index-inverse ((l, m) ∷ table) label n h e =
    ground (arith, str_eq_iff l label, find_index-inverse table label n h.1)

tables_agree : All (λ entry. label_of entry.1 ≡ entry.0) label_to_index
unfolding label_of find_label
tables_agree = (refl, (refl, (refl, (refl, (refl, (refl, (refl, (refl, tt))))))))

index_of_field :
    (label : String) {n : ℕ} → find_index label_to_index label ≡ some n → index_of label ≡ some n
unfolding index_of
index_of_field label e = rw (index_of, e)

-- Reading the index that was written for one of the eight labels gives the label.
pub label_of-index_of :
    (label : String) {n : ℕ}
    → find_index label_to_index label ≡ some n
    → label_of (index_or_zero (index_of label)) ≡ label
label_of-index_of label {n} e =
    rw (index_of_field label e) (find_index-inverse label_to_index label n tables_agree e)

-- The labels of `dict` are not among the entries.
abbrev Apart : List (String × List ℕ) → Dict → Type 0
Apart entries [] = Unit
Apart entries ((label, value) ∷ dict) = All (λ entry. entry.0 ≢ label) entries × Apart entries dict

assign_bytes-absent :
    (entries : List (String × List ℕ)) (label : String) (bs : List ℕ)
    → All (λ entry. entry.0 ≢ label) entries
    → assign_bytes entries label bs ≡ entries ++ ((label, bs) ∷ [])
assign_bytes-absent [] label bs h = refl
assign_bytes-absent ((l, cs) ∷ entries) label bs h =
    ground (arith, str_eq_iff l label, assign_bytes-absent entries label bs h.1)

All-snoc :
    (entries : List (String × List ℕ)) (label l : String) (bs : List ℕ)
    → All (λ entry. entry.0 ≢ label) entries
    → l ≢ label
    → All (λ entry. entry.0 ≢ label) (entries ++ ((l, bs) ∷ []))
All-snoc [] label l bs h k = (k, tt)
All-snoc (e ∷ entries) label l bs h k = (h.0, All-snoc entries label l bs h.1 k)

Apart-snoc :
    (entries : List (String × List ℕ)) (dict : Dict) (label : String) (bs : List ℕ)
    → Apart entries dict
    → All (λ entry. label ≢ entry.0) dict
    → Apart (entries ++ ((label, bs) ∷ [])) dict
Apart-snoc entries [] label bs h k = tt
Apart-snoc entries ((l, v) ∷ dict) label bs h k =
    (All-snoc entries l label bs h.0 k.0, Apart-snoc entries dict label bs h.1 k.1)

entries_of-frames_of :
    (dict : Dict) (entries : List (String × List ℕ))
    → All IsField dict
    → Distinct dict
    → Apart entries dict
    → entries_of (frames_of dict) entries ≡ entries ++ contents dict
entries_of-frames_of [] entries h d a = sym (append-nil entries)
entries_of-frames_of ((label, value) ∷ dict) entries h d a =
    let placed : assign_bytes entries (label_of (index_or_zero (index_of label))) (bytes value)
        ≡ entries ++ ((label, bytes value) ∷ []) =
      ap (λ l. assign_bytes entries l (bytes value)) (label_of-index_of label h.0.0.1)
      ∙ assign_bytes-absent entries label (bytes value) a.0 in
    ap (entries_of (frames_of dict)) placed
    ∙ entries_of-frames_of dict (entries ++ ((label, bytes value) ∷ [])) h.1 d.1
        (Apart-snoc entries dict label (bytes value) a.1 d.0)
    ∙ append_assoc entries ((label, bytes value) ∷ []) (contents dict)

IsField-IsEntry : (dict : Dict) → All IsField dict → All IsEntry dict
IsField-IsEntry [] h = tt
IsField-IsEntry ((label, value) ∷ dict) h =
    (((h.0.0.0, index_of_field label h.0.0.1), (h.0.1.0, h.0.1.1)), IsField-IsEntry dict h.1)

IsField-Fits : (dict : Dict) → All IsField dict → All Fits (frames_of dict)
IsField-Fits [] h = tt
IsField-Fits ((label, value) ∷ dict) h = (ground arith, IsField-Fits dict h.1)

Apart-nil : (dict : Dict) → Apart [] dict
Apart-nil [] = tt
Apart-nil ((l, v) ∷ dict) = (tt, Apart-nil dict)

-- A message of distinct fields is encoded, and decoding the result gives the same labels with the
-- same bytes, in the same order.
pub decode-encode :
    (dict : Dict)
    → All IsField dict
    → Distinct dict
    → (bs : List ℕ) × (d : Dict) × (encode dict ≡ ok bs)
      × (decode (array_buffer bs) ≡ ok d)
      × (contents d ≡ contents dict)
decode-encode dict h d =
    let (read, run, same) = decode-layout version (frames_of dict) (IsField-Fits dict h) in
    (
      version ∷ layout (frames_of dict),
      read,
      encode-layout dict (IsField-IsEntry dict h),
      run,
      same ∙ entries_of-frames_of dict [] h d (Apart-nil dict),
    )
