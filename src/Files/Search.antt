-- ===== src/Files/Search.antt =====
-- The search of `getFilteredFiles`. Letters other than the ASCII ones are compared as they are.
pub mod Laws
use distributed_file_storage.Prelude.{
  ℕ, String, Bool, true, false, ◌||◌, ◌&&◌, List, [], ◌∷◌, leb, ◌==◌, if◌then◌else◌, filter, codes,
  is_space, to_lower, to_lower_case, includes,
}
use distributed_file_storage.Api.{FileInfo}

trim_start : List ℕ → List ℕ
trim_start [] = []
trim_start (c ∷ s) = let rest = trim_start s in if is_space c then rest else c ∷ s

-- A text that is all white space has nothing left; otherwise the white space at its end goes.
trim_end : List ℕ → List ℕ
trim_end [] = []
trim_end (c ∷ s) =
    let rest = trim_end s in
    elim rest [ [] ↦ (if is_space c then [] else c ∷ []) | d ∷ r ↦ c ∷ d ∷ r ]

-- `this.searchQuery.trim().toLowerCase()`
unfoldable pub search_key : String → List ℕ
unfolding trim_start trim_end to_lower
search_key query = to_lower_case (trim_end (trim_start (codes query)))

-- `f.name.toLowerCase().includes(q)`
unfoldable pub name_matches : List ℕ → FileInfo → Bool
unfolding to_lower
name_matches q f = includes (to_lower_case (codes f.name)) q

abbrev filter_key : List ℕ → List FileInfo → List FileInfo
filter_key [] files = files
filter_key (c ∷ q) files = filter (name_matches (c ∷ q)) files

unfoldable pub filter_files : String → List FileInfo → List FileInfo
unfolding search_key
filter_files query files = filter_key (search_key query) files
