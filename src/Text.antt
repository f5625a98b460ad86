-- ===== src/Text.antt =====
-- What the conversation uses of JavaScript's texts (backend/gateway/src/router.ts,
-- backend/gateway/src/conversation.ts): `trim`, `includes`, `length` and the numbers of a selection.
use Prim.Native.Char.{Char, code}
use Prim.Native.String.{String, [], ◌∷◌}
use nzela.Base.{
  ℕ, zero, suc, ◌+◌, ◌-◌, ◌*◌, Bool, true, false, not, ◌&&◌, ◌||◌, Option, none, some, List, ltb,
  leb, ◌==◌, if◌then◌else◌, any, ◌===◌,
}

-- The white space of `trim` and of `\s`.
unfoldable pub is_space : Char → Bool
is_space c =
    let n = code c in
    (leb 9 n && leb n 13)
    || n == 32
    || n == 160
    || n == 5760
    || (leb 8192 n && leb n 8202)
    || n == 8232
    || n == 8233
    || n == 8239
    || n == 8287
    || n == 12288
    || n == 65279

unfoldable pub trim_start : String → String
trim_start [] = []
trim_start (c ∷ s) = elim (is_space c) [ true ↦ trim_start s | false ↦ c ∷ s ]

unfoldable pub trim_end : String → String
trim_end [] = []
trim_end (c ∷ s) = let rest = trim_end s in if is_space c && rest === "" then [] else c ∷ rest

-- `s.trim()`
unfoldable pub trim : String → String
unfolding trim_start trim_end is_space
trim s = trim_end (trim_start s)

unfoldable pub starts_with : String → String → Bool
starts_with s [] = true
starts_with [] (d ∷ t) = false
starts_with (c ∷ s) (d ∷ t) = code c == code d && starts_with s t

-- `s.includes(t)`
unfoldable pub includes : String → String → Bool
unfolding starts_with
includes [] t = starts_with [] t
includes (c ∷ s) t = starts_with (c ∷ s) t || includes s t

-- `words.some((w) => s.includes(w))`
unfoldable pub mentions : List String → String → Bool
unfolding includes
mentions words s = any (includes s) words

-- `s.length`, in UTF-16 units.
unfoldable pub utf16_length : String → ℕ
utf16_length [] = 0
utf16_length (c ∷ s) = (if ltb (code c) 65536 then 1 else 2) + utf16_length s

unfoldable pub is_digit : Char → Bool
is_digit c = leb 48 (code c) && leb (code c) 57

-- At most `n` further digits, after those worth `acc`: the number and the text behind it.
unfoldable pub digits : ℕ → ℕ → String → ℕ × String
unfolding is_digit
digits zero acc s = (acc, s)
digits (suc n) acc [] = (acc, [])
digits (suc n) acc (c ∷ s) = elim (is_digit c) [
  | true ↦ digits n (acc * 10 + (code c - 48)) s
  | false ↦ (acc, c ∷ s)
]

-- `\d{1,3}`
unfoldable pub number : String → Option (ℕ × String)
unfolding digits is_digit
number [] = none
number (c ∷ s) = if is_digit c then some (digits 3 0 (c ∷ s)) else none

-- `\s*(\d{1,3})$`
unfoldable last_number : String → Option ℕ
unfolding number trim_start
last_number s = elim (number (trim_start s)) [
  | none ↦ none
  | some found ↦ if found.1 === "" then some found.0 else none
]

-- `(?:\s*[x×]\s*(\d{1,3}))?$`, the quantity 1 when the group is missing.
times_sign : String → Option ℕ
unfolding last_number
times_sign [] = none
times_sign (c ∷ s) = if code c == 120 || code c == 215 then last_number s else none

unfoldable pub quantity_of : String → Option ℕ
unfolding times_sign trim_start
quantity_of rest = if rest === "" then some 1 else times_sign (trim_start rest)

pub record Selection : Type 0 where
  pub index : ℕ
  pub qty : ℕ

unfoldable pub in_range : ℕ → ℕ → Option Selection
in_range index qty =
    if ltb index 1 || ltb qty 1 || ltb 50 qty
    then none
    else some (record { index = index; qty = qty })

unfoldable pub parse_selection : String → Option Selection
unfolding number quantity_of in_range
parse_selection t = elim (number (trim t)) [
  | none ↦ none
  | some found ↦ elim (quantity_of found.1) [ none ↦ none | some qty ↦ in_range found.0 qty ]
]

-- `\w`
unfoldable is_word : Char → Bool
is_word c =
    let n = code c in is_digit c || (leb 65 n && leb n 90) || (leb 97 n && leb n 122) || n == 95

-- The text begins with `w`, and no letter follows: `w\b`, for a `w` that ends in a letter.
unfoldable begins_word : String → String → Bool
unfolding is_word is_digit
begins_word [] [] = true
begins_word (c ∷ s) [] = not (is_word c)
begins_word [] (d ∷ w) = false
begins_word (c ∷ s) (d ∷ w) = code c == code d && begins_word s w

-- `/(w1|w2|...)\b/.test(s)`, for words that end in a letter.
unfoldable pub finds_word : List String → String → Bool
unfolding begins_word
finds_word words [] = false
finds_word words (c ∷ s) = any (begins_word (c ∷ s)) words || finds_word words s
