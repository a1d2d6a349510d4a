-- ===== src/Tests/Reads.antt =====
-- The reading tools, on a file with a line to find and one with a credential.
use pullsmith.Common.{
  ◌≡◌, refl, ◌⊎◌, inr, String, Bool, true, false, none, List, [], ◌∷◌, contains_text, ◌<>◌,
}
use pullsmith.Db.{num, texts}
use pullsmith.Disk.{Disk, absent, directory, file, put}
use pullsmith.Tools.{returned, safety_refused, success}
use pullsmith.Safety.{wrap_untrusted}
use pullsmith.Reading.{ReadFileArgs, SearchCodeArgs, read_file, search_code}
use pullsmith.Tests.Agent.{context}
use pullsmith.Tests.Edits.{there, work}

abbrev pub disk : Disk
disk =
    put ("w" ∷ ".env" ∷ []) (file "A_SECRET=1\n")
      (put ("w" ∷ "a.py" ∷ []) (file "x = 1\n") (put ("w" ∷ []) directory (λ p. absent)))

abbrev pub children : List String → Disk → List String
children path d = ".env" ∷ "a.py" ∷ []

abbrev pub tree : List String → Disk → List (List String)
tree path d = ("w" ∷ ".env" ∷ []) ∷ ("w" ∷ "a.py" ∷ []) ∷ []

abbrev pub compile : String → Bool → Bool → String ⊎ (String → Bool)
compile pattern is_regex case_sensitive = inr (λ line. contains_text pattern line)

abbrev pub shown : String → String
shown s = "'" <> s <> "'"

abbrev pub secret_file : ReadFileArgs
secret_file = record { path = ".env"; start_line = none; end_line = none }

abbrev pub secret_search : SearchCodeArgs
secret_search = record { pattern = "SECRET"; path = "."; is_regex = false; case_sensitive = true }

not_read :
    (read_file there work children tree compile shown context secret_file disk).0
    ≡ safety_refused "Reading .env is not permitted"
unfolding read_file put
not_read = refl

yet_found :
    (search_code there work children tree compile shown context secret_search disk).0
    ≡ returned (
        success
          (wrap_untrusted "matches for 'SECRET'" ".env:1: A_SECRET=1" 8000)
          (("match_count", num 1) ∷ ("files_matched", texts (".env" ∷ [])) ∷ []))
unfolding search_code put contains_text
yet_found = refl
