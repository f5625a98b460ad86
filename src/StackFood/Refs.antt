-- ===== src/StackFood/Refs.antt =====
-- The references of orders in texts (shared/stackfood-client/src/idempotency.ts).
use nzela.Base.{
  ℕ, zero, suc, ◌≡◌, refl, Bool, true, ◌&&◌, ◌||◌, Option, none, some, if◌then◌else◌, leb, ◌==◌,
  arith,
}
use nzela.Text.{is_space, is_digit}
use Prim.Native.Char.{Char, code}
use Prim.Native.String.{String, [], ◌∷◌}

-- `s + t`
abbrev append : String → String → String
append [] t = t
append (c ∷ s) t = c ∷ append s t

-- `formatTkRef`, of a sequence number in decimal digits.
unfoldable pub format_tk_ref : String → String
format_tk_ref digits = append "TK-" digits

-- `\d{0,n}`, greedy: the digits that a text begins with, at most `n`.
unfoldable take_digits : ℕ → String → String
unfolding is_digit
take_digits zero s = []
take_digits (suc n) [] = []
take_digits (suc n) (c ∷ s) = let rest = take_digits n s in if is_digit c then c ∷ rest else []

-- `(\d{2,6})`
unfoldable two_to_six : String → Option String
unfolding is_digit take_digits
two_to_six (c ∷ d ∷ s) = if is_digit c && is_digit d then some (c ∷ d ∷ take_digits 4 s) else none
two_to_six _ = none

-- `[-\s]?(\d{2,6})`; a separator is no digit, so that it is skipped when it is there.
unfoldable after_tk : String → Option String
unfolding two_to_six is_space
after_tk [] = none
after_tk (c ∷ s) = if code c == 45 || is_space c then two_to_six s else two_to_six (c ∷ s)

-- `TK[-\s]?(\d{2,6})` at the beginning of a text, in either case.
unfoldable tk_here : String → Option String
unfolding after_tk
tk_here (t ∷ k ∷ s) =
    if (code t == 84 || code t == 116) && (code k == 75 || code k == 107) then after_tk s else none
tk_here _ = none

-- `TK_REF_PATTERN.exec(text)`: the digits of the first match.
unfoldable find_tk : String → Option String
unfolding tk_here
find_tk [] = none
find_tk (c ∷ s) = let later = find_tk s in elim (tk_here (c ∷ s)) [ some m ↦ some m | none ↦ later ]

-- `extractTkRef`
unfoldable pub extract_tk_ref : String → Option String
unfolding find_tk
extract_tk_ref s = elim (find_tk s) [ none ↦ none | some m ↦ some (append "TK-" m) ]

unfoldable pub all_digits : String → Bool
unfolding is_digit
all_digits [] = true
all_digits (c ∷ s) = is_digit c && all_digits s

abbrev pub char_count : String → ℕ
char_count [] = 0
char_count (c ∷ s) = suc (char_count s)

-- The first `n` characters.
unfoldable pub prefix : ℕ → String → String
prefix zero s = []
prefix (suc n) [] = []
prefix (suc n) (c ∷ s) = c ∷ prefix n s

take_digits-all : (n : ℕ) (s : String) → all_digits s ≡ true → take_digits n s ≡ prefix n s
unfolding take_digits prefix all_digits
take_digits-all zero s h = refl
take_digits-all (suc n) [] h = refl
take_digits-all (suc n) (c ∷ s) h = ground (arith, take_digits-all n s)

found_digits :
    (c d : Char) (s : String)
    → all_digits (c ∷ d ∷ s) ≡ true
    → two_to_six (c ∷ d ∷ s) ≡ some (prefix 6 (c ∷ d ∷ s))
unfolding two_to_six all_digits prefix
found_digits c d s h = ground (arith, take_digits-all 4 s)

format-found :
    (c d : Char) (s : String)
    → two_to_six (c ∷ d ∷ s) ≡ some (prefix 6 (c ∷ d ∷ s))
    → extract_tk_ref (format_tk_ref (c ∷ d ∷ s)) ≡ some (format_tk_ref (prefix 6 (c ∷ d ∷ s)))
unfolding extract_tk_ref format_tk_ref find_tk tk_here after_tk
format-found c d s e = rw (extract_tk_ref, find_tk, tk_here, after_tk, e) refl

-- A reference whose number has two digits or more is found in its own text by its first six digits,
-- so as it is when it has at most six; one of a single digit is not found.
pub extract-format :
    (c : Char) (s : String)
    → all_digits (c ∷ s) ≡ true
    → extract_tk_ref (format_tk_ref (c ∷ s))
      ≡ (if leb 1 (char_count s) then some (format_tk_ref (prefix 6 (c ∷ s))) else none)
unfolding extract_tk_ref format_tk_ref find_tk tk_here after_tk two_to_six is_space prefix
extract-format c [] h = refl
extract-format c (d ∷ s) h =
    let two : leb 1 (suc (char_count s)) ≡ true = ground arith in
    rw two (format-found c d s (found_digits c d s h))
