-- ===== src/Heartbeat/NodeMap.antt =====
-- `Map<string, NodeHeartbeatState>` as an association list in the order of insertion.
use mathlib.Core.Path.{subst}
use distributed_file_storage.Prelude.{
  String, str_eq, eq_iff, Option, none, some, List, [], ◌∷◌, map, ◌≡◌, refl, arith, if◌then◌else◌,
  All, Bool-cases, inl, inr,
}

-- The test of the map's keys, `SameValueZero` on texts.
pub eq_sym : (a b : String) → str_eq a b ≡ str_eq b a
eq_sym a b = ground (arith, eq_iff a b, eq_iff b a)

module _ {V : Type 0} where
  -- `map.get(key)`
  unfoldable pub get : String → List (String × V) → Option V
  get key [] = none
  get key ((k, v) ∷ m) = if str_eq k key then some v else get key m

  -- `map.set(key, value)`: a key that is there keeps its place.
  unfoldable pub put : String → V → List (String × V) → List (String × V)
  put key value [] = (key, value) ∷ []
  put key value ((k, v) ∷ m) = if str_eq k key then (key, value) ∷ m else (k, v) ∷ put key value m

  -- `Array.from(map.values())`
  abbrev pub values : List (String × V) → List V
  values = map (λ e. e.1)

  abbrev pub keys : List (String × V) → List String
  keys = map (λ e. e.0)

  pub get-put :
      (key j : String) (v : V) (m : List (String × V))
      → get j (put key v m) ≡ (if str_eq key j then some v else get j m)
  unfolding get put
  get-put key j v [] = refl
  get-put key j v ((k, w) ∷ m) =
      ground (arith, eq_iff key j, eq_iff k key, eq_iff k j, get-put key j v m)

  -- A property of the values that the new value has too.
  pub put-All :
      (P : V → Type 0) (key : String) (v : V) (m : List (String × V))
      → P v
      → All (λ e. P e.1) m
      → All (λ e. P e.1) (put key v m)
  unfolding put
  put-All P key v [] p h = (p, tt)
  put-All P key v ((k, w) ∷ m) p (q, h) = elim (Bool-cases (str_eq k key)) [
    | inl same ↦ rw same (p, h)
    | inr other ↦ rw other (q, put-All P key v m p h)
  ]

  pub get-All :
      (P : V → Type 0) (key : String) (m : List (String × V)) {v : V}
      → All (λ e. P e.1) m
      → get key m ≡ some v
      → P v
  unfolding get
  get-All P key [] h e = cc
  get-All P key ((k, w) ∷ m) {v = v} (p, h) e = elim (Bool-cases (str_eq k key)) [
    | inl same ↦ let e' : w ≡ v = ground arith in subst P e' p
    | inr other ↦ get-All P key m h (ground arith)
  ]

  -- No key stands twice.
  abbrev pub IsKeyed : List (String × V) → Type 0
  IsKeyed [] = Unit
  IsKeyed ((k, v) ∷ m) = (get k m ≡ none) × IsKeyed m

  pub put-IsKeyed :
      (key : String) (v : V) (m : List (String × V)) → IsKeyed m → IsKeyed (put key v m)
  unfolding put get
  put-IsKeyed key v [] h = (refl, tt)
  put-IsKeyed key v ((k, w) ∷ m) (new, h) = elim (Bool-cases (str_eq k key)) [
    | inl same ↦ rw same (subst (λ z. get z m ≡ none) ((eq_iff k key).0 same) new, h)
    | inr other ↦ rw other (rw (get-put key k v m, eq_sym key k, other) new, put-IsKeyed key v m h)
  ]
