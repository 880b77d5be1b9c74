-- ===== src/Pack/Format.antt =====
-- The format that `pack.encode` writes and `pack.decode` reads, by itself: frames one after the other.
use crypto_security_projects.Base.{
  ℕ, ◌^◌, ◌<◌, ◌≡◌, refl, arith, List, [], ◌∷◌, ◌++◌, String, length, str_eq, if◌then◌else◌,
  get_elem?, some,
}
use crypto_security_projects.Js.{Source, bytes}
use crypto_security_projects.Pack.{big_endian, label_of, assign, Dict}

-- An index and its data.
abbrev pub Frame : Type 0
Frame = ℕ × List ℕ

abbrev pub layout : List Frame → List ℕ
layout [] = []
layout ((index, bs) ∷ frames) = index ∷ (big_endian (length bs) ++ (bs ++ layout frames))

-- A frame that the four size bytes can describe.
abbrev pub Fits : Frame → Type 0
Fits frame = length frame.1 < 2 ^ 32

-- A dictionary seen as labels with bytes.
abbrev pub contents : Dict → List (String × List ℕ)
contents [] = []
contents ((label, value) ∷ dict) = (label, bytes value) ∷ contents dict

abbrev pub assign_bytes : List (String × List ℕ) → String → List ℕ → List (String × List ℕ)
assign_bytes [] label bs = (label, bs) ∷ []
assign_bytes ((l, cs) ∷ entries) label bs =
    if str_eq l label then (l, bs) ∷ entries else (l, cs) ∷ assign_bytes entries label bs

-- The entries that the frames stand for: a later frame of the same label replaces an earlier one.
abbrev pub entries_of : List Frame → List (String × List ℕ) → List (String × List ℕ)
entries_of [] entries = entries
entries_of ((index, bs) ∷ frames) entries =
    entries_of frames (assign_bytes entries (label_of index) bs)

pub contents-assign :
    (dict : Dict) (label : String) (value : Source)
    → contents (assign dict label value) ≡ assign_bytes (contents dict) label (bytes value)
unfolding assign
contents-assign [] label value = refl
contents-assign ((l, v) ∷ dict) label value = ground (arith, contents-assign dict label value)

pub get_elem?-append :
    (pre : List ℕ) (b : ℕ) (rest : List ℕ) → get_elem? (pre ++ b ∷ rest) (length pre) ≡ some b
get_elem?-append [] b rest = refl
get_elem?-append (x ∷ pre) b rest = get_elem?-append pre b rest
