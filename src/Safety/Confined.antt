-- ===== src/Safety/Confined.antt =====
-- Which paths pass agent/safety.py, `resolve_in_workspace`.
use pullsmith.Common.{
  path_parts, ◌≡◌, refl, sym, ◌∙◌, inl, inr, String, true, false, List, [], ◌∷◌, ◌++◌, not, ◌||◌,
  eq_iff, str_eq, Bool-cases, is_empty, is_some, strip, after_prefix,
}
use pullsmith.Safety.{has_null, is_below, resolve_in_workspace}

is_below_lem :
    (root path : List String)
    → is_below root path ≡ true
    → (rest : List String) × (path ≡ root ++ rest)
unfolding is_below
is_below_lem [] path h = (path, refl)
is_below_lem (r ∷ rs) [] h = cc
is_below_lem (r ∷ rs) (p ∷ ps) h = elim (Bool-cases (str_eq r p)) [
  | inr apart ↦ absurd (let no : false ≡ true = rw apart at h in cc)
  | inl same ↦
      (let (rest, e) = is_below_lem rs ps (rw same at h) in
        let q : r ≡ p = (eq_iff r p).0 same in (rest, cc))
]

-- A path that is resolved lies in the workspace, whatever the disk's links make of it: it is the
-- resolved root or below it. And the text that was asked for was relative.
pub resolve_in_workspace-confined :
    (resolve : List String → List String) (workspace : List String) (relative_path : String)
    (path : List String)
    → resolve_in_workspace resolve workspace relative_path ≡ inr path
    → ((rest : List String) × (path ≡ resolve workspace ++ rest))
      × (is_some (after_prefix "/" relative_path) ≡ false)
unfolding resolve_in_workspace
resolve_in_workspace-confined resolve workspace relative_path path h =
    elim (Bool-cases (is_empty relative_path || not (str_eq (strip relative_path) relative_path))) [
      | inl bad ↦ absurd (cc (rw bad at h))
      | inr fine ↦ elim (Bool-cases (is_some (after_prefix "/" relative_path))) [
        | inl absolute ↦ absurd (cc (rw (fine, absolute) at h))
        | inr relative ↦ elim (Bool-cases (has_null relative_path)) [
          | inl bad ↦ absurd (cc (rw (fine, relative, bad) at h))
          | inr clean ↦
              let resolved = resolve (resolve workspace ++ path_parts relative_path) in
              elim (Bool-cases (is_below (resolve workspace) resolved)) [
                | inr outside ↦ absurd (cc (rw (fine, relative, clean, outside) at h))
                | inl inside ↦
                    let (rest, e) = is_below_lem (resolve workspace) resolved inside in
                    let q : resolved ≡ path = cc (rw (fine, relative, clean, inside) at h) in
                    ((rest, sym q ∙ e), relative)
              ]
        ]
      ]
    ]
