-- ===== src/Common/Text.antt =====
-- Texts: equality, decimal printing and the slices of Python's `str`.
use Prim.Native.Nat.{ℕ, zero, suc, ◌+◌, ◌-◌, ◌*◌, ◌/◌, ◌%◌}
use Prim.Native.String.{String, ◌++◌}
use mathlib.Core.Bool.{Bool, true, false, ◌&&◌, ◌||◌}
use mathlib.Core.List.{List, [], ◌∷◌}
use Prim.Native.Char.{Char, code}
use mathlib.Core.Option.{Option, none, some}
use text.Mathlib.Text.{◌==◌ as text_eq}
use pullsmith.Common.Tests.{ltb, leb, ◌==◌, if◌then◌else◌}

abbrev pub str_eq : String → String → Bool
str_eq s t = text_eq s t

infixr 65 ◌<>◌
abbrev pub ◌<>◌ : String → String → String
s <> t = s ++ t

digit : ℕ → String
digit zero = "0"
digit (suc zero) = "1"
digit (suc (suc zero)) = "2"
digit (suc (suc (suc zero))) = "3"
digit (suc (suc (suc (suc zero)))) = "4"
digit (suc (suc (suc (suc (suc zero))))) = "5"
digit (suc (suc (suc (suc (suc (suc zero)))))) = "6"
digit (suc (suc (suc (suc (suc (suc (suc zero))))))) = "7"
digit (suc (suc (suc (suc (suc (suc (suc (suc zero)))))))) = "8"
digit _ = "9"

show_fuel : ℕ → ℕ → String
unfolding digit
show_fuel zero n = ""
show_fuel (suc fuel) n = elim (ltb n 10) [
  | true ↦ digit n
  | false ↦ show_fuel fuel (n / 10) ++ digit (n % 10)
]

-- `str(n)`; the number falls at each step, so `suc n` steps are enough.
unfoldable pub show : ℕ → String
unfolding show_fuel
show n = show_fuel (suc n) n

-- `s[:n]`, by characters.
unfoldable pub take_text : ℕ → String → String
take_text zero s = ""
take_text (suc n) String.[] = ""
take_text (suc n) (String.◌∷◌ c s) = String.◌∷◌ c (take_text n s)

abbrev pub is_empty : String → Bool
is_empty String.[] = true
is_empty (String.◌∷◌ c s) = false

-- `", ".join(items)`
unfoldable pub join : String → List String → String
join sep [] = ""
join sep (s ∷ []) = s
join sep (s ∷ t ∷ rest) = s ++ (sep ++ join sep (t ∷ rest))

-- What `str.strip` takes off, of ASCII.
abbrev pub is_space : ℕ → Bool
is_space c = c == 32 || (leb 9 c && leb c 13) || (leb 28 c && leb c 31)

-- `not s.strip()`
unfoldable pub is_blank : String → Bool
is_blank String.[] = true
is_blank (String.◌∷◌ c s) = is_space (code c) && is_blank s

-- `s or t`, for an optional text.
abbrev pub or_text : Option String → String → String
or_text none t = t
or_text (some String.[]) t = t
or_text (some (String.◌∷◌ c s)) t = String.◌∷◌ c s

-- `s < t`, by code points.
unfoldable pub text_lt : String → String → Bool
text_lt s String.[] = false
text_lt String.[] (String.◌∷◌ d t) = true
text_lt (String.◌∷◌ c s) (String.◌∷◌ d t) =
    ltb (code c) (code d) || (code c == code d && text_lt s t)

-- `s.lstrip()`, `s.rstrip()` and `s.strip()`
unfoldable pub lstrip : String → String
lstrip String.[] = ""
lstrip (String.◌∷◌ c s) = let rest = lstrip s in if is_space (code c) then rest else String.◌∷◌ c s

unfoldable pub rstrip : String → String
rstrip String.[] = ""
rstrip (String.◌∷◌ c s) =
    let rest = rstrip s in if is_space (code c) && is_empty rest then "" else String.◌∷◌ c rest

unfoldable pub strip : String → String
unfolding lstrip rstrip
strip s = lstrip (rstrip s)

-- What follows a prefix.
unfoldable pub after_prefix : (prefix : String) → String → Option String
after_prefix String.[] s = some s
after_prefix (String.◌∷◌ c p) String.[] = none
after_prefix (String.◌∷◌ c p) (String.◌∷◌ d s) =
    let rest = after_prefix p s in if code c == code d then rest else none

lower_in : (uppers lowers : String) → Char → Char
lower_in (String.◌∷◌ u us) (String.◌∷◌ l ls) c =
    let rest = lower_in us ls c in if code c == code u then l else rest
lower_in _ _ c = c

-- `s.lower()`, of ASCII.
unfoldable pub lower : String → String
unfolding lower_in
lower String.[] = ""
lower (String.◌∷◌ c s) =
    String.◌∷◌ (lower_in "ABCDEFGHIJKLMNOPQRSTUVWXYZ" "abcdefghijklmnopqrstuvwxyz" c) (lower s)

-- `s.endswith(suffix)` and `part in s`
unfoldable pub ends_with : String → (suffix : String) → Bool
ends_with String.[] suffix = text_eq "" suffix
ends_with (String.◌∷◌ c s) suffix =
    let rest = ends_with s suffix in text_eq (String.◌∷◌ c s) suffix || rest

unfoldable pub contains_text : (part : String) → String → Bool
unfolding after_prefix
contains_text part String.[] = is_empty part
contains_text part (String.◌∷◌ c s) =
    let rest = contains_text part s in
    (elim (after_prefix part (String.◌∷◌ c s)) [ none ↦ rest | some after ↦ true ])

-- `len(s)`
unfoldable pub text_length : String → ℕ
text_length String.[] = 0
text_length (String.◌∷◌ c s) = suc (text_length s)

-- `s[n:]` and `s[-n:]`
unfoldable pub drop_text : ℕ → String → String
drop_text zero s = s
drop_text (suc n) String.[] = ""
drop_text (suc n) (String.◌∷◌ c s) = drop_text n s

unfoldable pub last_text : ℕ → String → String
unfolding drop_text text_length
last_text n s = drop_text (text_length s - n) s

-- What a text's characters of a class at the front are, and what follows them.
unfoldable pub span_text : (ℕ → Bool) → String → String × String
span_text p String.[] = ("", "")
span_text p (String.◌∷◌ c s) =
    let rest = span_text p s in
    if p (code c) then (String.◌∷◌ c rest.0, rest.1) else ("", String.◌∷◌ c s)

abbrev pub is_digit : ℕ → Bool
is_digit c = leb 48 c && leb c 57

number_from : ℕ → String → ℕ
number_from n String.[] = n
number_from n (String.◌∷◌ c s) = number_from (n * 10 + (code c - 48)) s

-- `int(s)`, of digits.
unfoldable pub to_number : String → ℕ
unfolding number_from
to_number s = number_from 0 s

-- `re.findall`: a pattern is given the character before, and returns its group and what follows
-- the match, which is not empty. `skip` characters still belong to the last match.
unfoldable pub find_all {ℓ} :
    {A : Type ℓ}
    → (Option ℕ → String → Option (A × String))
    → Option ℕ
    → (skip : ℕ) → String
    → List A
unfolding text_length
find_all p before skip String.[] = []
find_all p before (suc skip) (String.◌∷◌ c s) = find_all p (some (code c)) skip s
find_all p before zero (String.◌∷◌ c s) = elim (p before (String.◌∷◌ c s)) [
  | none ↦ find_all p (some (code c)) zero s
  | some found ↦ found.0 ∷ find_all p (some (code c)) (text_length s - text_length found.1) s
]

-- `^` with MULTILINE.
abbrev pub at_line_start : Option ℕ → Bool
at_line_start none = true
at_line_start (some c) = c == 10

-- `s.split("::")[-1]`; `start` is the piece so far, and `skip` characters belong to a separator.
last_piece_from : (start : String) → (skip : ℕ) → String → String
last_piece_from start skip String.[] = start
last_piece_from start (suc skip) (String.◌∷◌ c s) = last_piece_from start skip s
last_piece_from start zero (String.◌∷◌ c s) = elim (after_prefix "::" (String.◌∷◌ c s)) [
  | none ↦ last_piece_from start zero s
  | some after ↦ last_piece_from after 1 s
]

unfoldable pub last_piece : String → String
unfolding last_piece_from
last_piece s = last_piece_from s 0 s

-- `str(b)`
abbrev pub show_bool : Bool → String
show_bool true = "True"
show_bool false = "False"
