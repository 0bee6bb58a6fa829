-- ===== src/Naming/Truncate.antt =====
-- internal/naming/triming.go. A format with its values is the list of the parts that it prints: its
-- own text, values that are strings and values that are not, as they are printed.
pub mod Kept
use mdai_operator.Prelude.{
  ℕ, zero, suc, ◌-◌, List, [], ◌∷◌, ◌++◌, Bool, not, ◌&&◌, ◌||◌, length, is_nil, ltb, leb, eqb,
  if◌then◌else◌,
}

pub data Part : Type 0 where
  fixed : List ℕ → Part
  text : List ℕ → Part
  other : List ℕ → Part

-- [A-Za-z0-9]
unfoldable pub is_alphanumeric : ℕ → Bool
is_alphanumeric c =
    (leb b'A' c && leb c b'Z') || (leb b'a' c && leb c b'z') || (leb b'0' c && leb c b'9')

-- fmt.Sprintf
unfoldable pub print : List Part → List ℕ
print [] = []
print (fixed s ∷ parts) = s ++ print parts
print (text s ∷ parts) = s ++ print parts
print (other s ∷ parts) = s ++ print parts

-- s[:n]
unfoldable pub take : ℕ → List ℕ → List ℕ
take zero s = []
take (suc n) [] = []
take (suc n) (c ∷ s) = c ∷ take n s

-- One string value: what is left of it, and of the excess.
unfoldable pub cut : ℕ → List ℕ → List ℕ × ℕ
unfolding take
cut excess s =
    if ltb excess (length s) then (take (length s - excess) s, 0) else ([], excess - length s)

-- The loop over the values.
unfoldable pub shorten : ℕ → List Part → List Part
unfolding cut
shorten excess [] = []
shorten excess (fixed s ∷ parts) = fixed s ∷ shorten excess parts
shorten excess (other s ∷ parts) = other s ∷ shorten excess parts
shorten excess (text s ∷ parts) =
    let (kept, left) = cut excess s in
    let shortened = shorten left parts in
    let same = shorten 0 parts in if eqb excess 0 then text s ∷ same else text kept ∷ shortened

unfoldable pub trim_end : List ℕ → List ℕ
unfolding is_alphanumeric
trim_end [] = []
trim_end (c ∷ s) =
    let rest = trim_end s in if is_nil rest && not (is_alphanumeric c) then [] else c ∷ rest

unfoldable pub trim_start : List ℕ → List ℕ
unfolding is_alphanumeric
trim_start [] = []
trim_start (c ∷ s) = let rest = trim_start s in if is_alphanumeric c then c ∷ s else rest

unfoldable pub trim_non_alphanumeric : List ℕ → List ℕ
unfolding trim_end trim_start
trim_non_alphanumeric s = trim_start (trim_end s)

-- The hard cap.
unfoldable pub cap : ℕ → List ℕ → List ℕ
unfolding trim_non_alphanumeric take
cap max_len s = if ltb max_len (length s) then take max_len s else trim_non_alphanumeric s

unfoldable pub truncate : ℕ → List Part → List ℕ
unfolding print shorten cap
truncate max_len parts =
    let result = print parts in
    let shortened = print (shorten (length result - max_len) parts) in
    cap max_len (if ltb max_len (length result) then shortened else result)
