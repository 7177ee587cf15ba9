-- ===== src/Files/Search/Laws.antt =====
-- The search keeps exactly the files whose name contains the key, in their order.
use distributed_file_storage.Prelude.{ℕ, List, [], ◌∷◌, ◌++◌, ◌≡◌, codes, to_lower_case}
use distributed_file_storage.Api.{FileInfo}

-- `t` stands in `s` as a run of neighbours.
abbrev pub Occurs : List ℕ → List ℕ → Type 0
Occurs t s = (before after : List ℕ) × (s ≡ before ++ (t ++ after))

-- `ys` are those of `xs` that satisfy `P`, all of them, in order.
pub data Selects {A : Type 0} (P : A → Type 0) : List A → List A → Type 0 where
  done : Selects P [] []
  keep : {x : A} {xs ys : List A} → P x → Selects P xs ys → Selects P (x ∷ xs) (x ∷ ys)
  drop : {x : A} {xs ys : List A} → ¬ P x → Selects P xs ys → Selects P (x ∷ xs) ys

-- A file is a hit if its name, in lower case, contains the key.
abbrev pub IsHit : List ℕ → FileInfo → Type 0
IsHit key f = Occurs key (to_lower_case (codes f.name))
