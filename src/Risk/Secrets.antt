-- ===== src/Risk/Secrets.antt =====
-- agent/risk.py, `scan_for_secrets`. Each of the regular expressions is a function that says
-- whether it matches at the start of a text; `after_word` says whether a word character comes
-- right before. Letters, digits and white space are those of ASCII.
use Prim.Native.Char.{code}
use pullsmith.Common.{
  ℕ, zero, suc, String, Bool, true, false, Option, none, some, List, [], ◌∷◌, map, not, ◌&&◌, ◌||◌,
  ◌==◌, leb, if◌then◌else◌, where_rows, is_some, is_space, join, str_eq, after_prefix, split_lines,
  lower, text_lt,
}

abbrev is_upper : ℕ → Bool
is_upper c = leb 65 c && leb c 90

-- [A-Za-z0-9]
abbrev is_alnum : ℕ → Bool
is_alnum c = is_upper c || (leb 97 c && leb c 122) || (leb 48 c && leb c 57)

-- [A-Za-z0-9_], which is also \w
abbrev is_word : ℕ → Bool
is_word c = is_alnum c || c == 95

-- [A-Za-z0-9\-_]
abbrev is_key : ℕ → Bool
is_key c = is_word c || c == 45

-- At least `n` characters of a class.
unfoldable run_of : (ℕ → Bool) → ℕ → String → Bool
run_of p zero s = true
run_of p (suc n) String.[] = false
run_of p (suc n) (String.◌∷◌ c s) = p (code c) && run_of p n s

abbrev followed : Option String → (String → Bool) → Bool
followed none f = false
followed (some s) f = f s

abbrev one_of : (ℕ → Bool) → String → Option String
one_of p String.[] = none
one_of p (String.◌∷◌ c s) = if p (code c) then some s else none

-- gh[pousr]_[A-Za-z0-9]{16,}
abbrev github_token : String → Bool
github_token s = followed (after_prefix "gh" s) λ t.
    followed (one_of (λ c. c == 112 || c == 111 || c == 117 || c == 115 || c == 114) t)
      λ u. followed (after_prefix "_" u) (λ v. run_of is_alnum 16 v)

-- [A-Z ]*PRIVATE KEY-----
unfoldable key_header : String → Bool
unfolding after_prefix
key_header String.[] = false
key_header (String.◌∷◌ c s) =
    is_some (after_prefix "PRIVATE KEY-----" (String.◌∷◌ c s))
    || (is_upper (code c) || code c == 32) && key_header s

-- The rest behind `stop`, after one or more characters that are neither it nor white space.
unfoldable up_to_stop : (stop : ℕ) → (begun : Bool) → String → Option String
up_to_stop stop begun String.[] = none
up_to_stop stop begun (String.◌∷◌ c s) =
    let rest = up_to_stop stop true s in
    if code c == stop
    then (if begun then some s else none)
    else if is_space (code c)
    then none
    else rest

-- ://[^:\s]+:[^@\s]+@
abbrev url_with_login : String → Bool
url_with_login s =
    followed (after_prefix "://" s)
      λ t. followed (up_to_stop 58 false t) (λ u. is_some (up_to_stop 64 false u))

-- \w+ up to the address, which begins with no word character
unfoldable pub driver : (begun : Bool) → String → Bool
unfolding after_prefix up_to_stop
driver begun String.[] = false
driver begun (String.◌∷◌ c s) =
    let rest = driver true s in
    if is_word (code c) then rest else begun && url_with_login (String.◌∷◌ c s)

abbrev dialect : String → Bool
dialect s = url_with_login s || followed (after_prefix "+" s) (λ t. driver false t)

-- (?i)(postgres(?:ql)?(?:\+\w+)?://)[^:\s]+:[^@\s]+@, of a lowered text
abbrev database_url : String → Bool
database_url s =
    followed (after_prefix "postgres" s)
      λ t. dialect t || followed (after_prefix "ql" t) (λ u. dialect u)

abbrev Pattern : Type 0
Pattern = Bool → String → Bool

-- `pattern.search(text)`
unfoldable pub search : Pattern → (after_word : Bool) → String → Bool
search p after_word String.[] = p after_word ""
search p after_word (String.◌∷◌ c s) =
    p after_word (String.◌∷◌ c s) || search p (is_word (code c)) s

unfoldable secret_patterns : List (Pattern × String)
unfolding after_prefix run_of key_header driver up_to_stop lower
secret_patterns =
    ((λ w s. github_token s), "GitHub token")
    ∷ (
      (λ w s. followed (after_prefix "github_pat_" s) (λ t. run_of is_word 20 t)),
      "GitHub fine-grained token",
    )
    ∷ (
      (λ w s. not w && followed (after_prefix "AQ." s) (λ t. run_of is_key 20 t)),
      "Google API key",
    )
    ∷ ((λ w s. followed (after_prefix "AIza" s) (λ t. run_of is_key 20 t)), "Google API key")
    ∷ ((λ w s. followed (after_prefix "sk-" s) (λ t. run_of is_key 16 t)), "provider API key")
    ∷ ((λ w s. followed (after_prefix "-----BEGIN " s) (λ t. key_header t)), "private key")
    ∷ ((λ w s. database_url (lower s)), "database URL with credentials")
    ∷ []

-- The lines that the diff adds, without their sign.
unfoldable added_lines : List String → List String
unfolding after_prefix
added_lines [] = []
added_lines (l ∷ ls) =
    let rest = added_lines ls in
    (elim (after_prefix "+" l) [
      | none ↦ rest
      | some body ↦ if is_some (after_prefix "+++" l) then rest else body ∷ rest
    ])

-- sorted({…}): in order, and each once
unfoldable insert_label : String → List String → List String
unfolding text_lt
insert_label l [] = l ∷ []
insert_label l (m ∷ ms) =
    let rest = insert_label l ms in
    if str_eq l m then m ∷ ms else if text_lt l m then l ∷ m ∷ ms else m ∷ rest

unfoldable label_set : List String → List String
unfolding insert_label
label_set [] = []
label_set (l ∷ ls) = insert_label l (label_set ls)

unfoldable pub scan_for_secrets : (diff_text : String) → List String
unfolding added_lines split_lines join search secret_patterns label_set
scan_for_secrets diff_text =
    let added = join "\n" (added_lines (split_lines diff_text)) in
    label_set (map (λ p. p.1) (where_rows (λ p. search p.0 false added) secret_patterns))
