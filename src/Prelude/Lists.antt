-- ===== src/Prelude/Lists.antt =====
-- Lists measured and indexed by native numbers, under the library's names, and the edits that the
-- program makes to arrays: a write past the end, a removal and an insertion by index.
use Prim.Native.Nat.{ℕ, zero, suc, ◌+◌, ◌≤◌}
use mathlib.Core.Path.{◌≡◌, refl, ap}
use mathlib.Core.Bool.{Bool}
use mathlib.Core.List.{List, [], ◌∷◌, ◌++◌}
use mathlib.Core.Option.{Option, none, some}
use native.Mathlib.Omega.{arith}
use distributed_file_storage.Prelude.Tests.{if◌then◌else◌}

module _ {ℓ} {A : Type ℓ} where
  abbrev pub length : List A → ℕ
  length [] = 0
  length (x ∷ xs) = suc (length xs)

  abbrev pub get_elem? : List A → ℕ → Option A
  get_elem? [] i = none
  get_elem? (x ∷ xs) zero = some x
  get_elem? (x ∷ xs) (suc i) = get_elem? xs i

  abbrev pub replicate : ℕ → A → List A
  replicate zero a = []
  replicate (suc n) a = a ∷ replicate n a

  -- `xs.filter(p)`
  abbrev pub filter : (A → Bool) → List A → List A
  filter p [] = []
  filter p (x ∷ xs) = let rest = filter p xs in if p x then x ∷ rest else rest

  -- `xs.findIndex(p)`, with `none` for -1
  abbrev pub find_index : (A → Bool) → List A → Option ℕ
  find_index p [] = none
  find_index p (x ∷ xs) =
      let rest = find_index p xs in
      if p x then some 0 else elim rest [ none ↦ none | some i ↦ some (suc i) ]

  -- `xs.filter((_, idx) => idx !== i)`
  abbrev pub erase_idx : List A → ℕ → List A
  erase_idx [] i = []
  erase_idx (x ∷ xs) zero = xs
  erase_idx (x ∷ xs) (suc i) = x ∷ erase_idx xs i

  -- `xs.splice(i, 0, a)`: an index past the end appends.
  abbrev pub insert_idx : List A → ℕ → A → List A
  insert_idx xs zero a = a ∷ xs
  insert_idx [] (suc i) a = a ∷ []
  insert_idx (x ∷ xs) (suc i) a = x ∷ insert_idx xs i a

  pub length-append : (xs ys : List A) → length (xs ++ ys) ≡ length xs + length ys
  length-append [] ys = omega arith
  length-append (x ∷ xs) ys = omega (arith, length-append xs ys)

  pub length-replicate : (n : ℕ) (a : A) → length (replicate n a) ≡ n
  length-replicate zero a = refl
  length-replicate (suc n) a = ap suc (length-replicate n a)

  pub length-filter-le : (p : A → Bool) (xs : List A) → length (filter p xs) ≤ length xs
  length-filter-le p [] = omega arith
  length-filter-le p (x ∷ xs) = ground (arith, length-filter-le p xs)

  pub insert_idx-erase_idx :
      (xs : List A) (i : ℕ) (a : A) → get_elem? xs i ≡ some a → insert_idx (erase_idx xs i) i a ≡ xs
  insert_idx-erase_idx [] i a h = ground arith
  insert_idx-erase_idx (x ∷ xs) zero a h = ground arith
  insert_idx-erase_idx (x ∷ xs) (suc i) a h = ap (◌∷◌ x) (insert_idx-erase_idx xs i a h)

  pub length-erase_idx :
      (xs : List A) (i : ℕ) {a : A}
      → get_elem? xs i ≡ some a
      → length xs ≡ suc (length (erase_idx xs i))
  length-erase_idx [] i h = ground arith
  length-erase_idx (x ∷ xs) zero h = refl
  length-erase_idx (x ∷ xs) (suc i) h = ap suc (length-erase_idx xs i h)

  pub length-insert_idx :
      (xs : List A) (i : ℕ) (a : A) → length (insert_idx xs i a) ≡ suc (length xs)
  length-insert_idx [] zero a = refl
  length-insert_idx [] (suc i) a = refl
  length-insert_idx (x ∷ xs) zero a = refl
  length-insert_idx (x ∷ xs) (suc i) a = ap suc (length-insert_idx xs i a)

module _ {ℓ κ} {A : Type ℓ} (P : A → Type κ) where
  abbrev pub All : List A → Type κ
  All [] = Unit
  All (x ∷ xs) = P x × All xs

  pub All-append : (xs ys : List A) → All xs → All ys → All (xs ++ ys)
  All-append [] ys h k = k
  All-append (x ∷ xs) ys (p, h) k = (p, All-append xs ys h k)
