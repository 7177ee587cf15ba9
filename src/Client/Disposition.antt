-- ===== src/Client/Disposition.antt =====
-- The file's name in a Content-Disposition header, as `downloadFile` of frontend/src/api/client.ts finds
-- it: the first match of `filename\*?=(?:UTF-8'')?["']?([^"';]+)["']?`, letters of either case.
pub mod Names
use distributed_file_storage.Prelude.{
  ℕ, String, ◌≡◌, refl, true, false, ◌||◌, Option, none, some, List, [], ◌∷◌, or_else,
  if◌then◌else◌, ◌==◌, codes, truthy, to_lower, is_space,
}
use Prim.Native.Char.{code}

-- What follows a word, which is written in lower case.
unfoldable pub drop_word : List ℕ → String → Option String
drop_word [] s = some s
drop_word (c ∷ word) String.[] = none
drop_word (c ∷ word) (String.◌∷◌ d s) =
    let rest = drop_word word s in if c == to_lower (code d) then rest else none

-- `[^"';]*`
unfoldable pub take_value : String → String
take_value String.[] = ""
take_value (String.◌∷◌ c s) =
    let rest = take_value s in
    if code c == 34 || code c == 39 || code c == 59 then "" else String.◌∷◌ c rest

-- `([^"';]+)`
abbrev value : String → Option String
value s = let v = take_value s in if truthy v then some v else none

-- `["']?([^"';]+)`
abbrev pub quoted_value : String → Option String
quoted_value String.[] = none
quoted_value (String.◌∷◌ c s) =
    if code c == 34 || code c == 39 then value s else value (String.◌∷◌ c s)

-- The first of two ways to match that succeeds.
abbrev or_match : Option String → Option String → Option String
or_match none b = b
or_match (some a) b = some a

abbrev then_match : Option String → (String → Option String) → Option String
then_match none f = none
then_match (some s) f = f s

abbrev charset_value : String → Option String
charset_value s =
    or_match (then_match (drop_word (codes "utf-8''") s) quoted_value) (quoted_value s)

-- `\*?=…`
abbrev assigned_value : String → Option String
assigned_value s =
    then_match (drop_word (codes "=") (or_else (drop_word (codes "*") s) s)) charset_value

-- The leftmost match of the pattern.
unfoldable pub match_filename : String → Option String
unfolding drop_word take_value
match_filename String.[] = none
match_filename (String.◌∷◌ c s) =
    or_match (then_match (drop_word (codes "filename") (String.◌∷◌ c s)) assigned_value)
      (match_filename s)

unfoldable pub trim_start : String → String
trim_start String.[] = ""
trim_start (String.◌∷◌ c s) =
    let rest = trim_start s in if is_space (code c) then rest else String.◌∷◌ c s

unfoldable pub trim_end : String → String
trim_end String.[] = ""
trim_end (String.◌∷◌ c s) =
    let rest = trim_end s in
    if truthy rest || (if is_space (code c) then false else true) then String.◌∷◌ c rest else ""

-- `match[1].trim()` of a header that is there and is not empty
unfoldable pub disposition_name : Option String → Option String
unfolding match_filename trim_start trim_end
disposition_name none = none
disposition_name (some s) = elim (match_filename s) [
  | none ↦ none
  | some v ↦ some (trim_end (trim_start v))
]

quoted_test : disposition_name (some "attachment; filename=\"a b.txt\"") ≡ some "a b.txt"
unfolding disposition_name to_lower
quoted_test = refl

charset_test : disposition_name (some "attachment; FileName*=UTF-8''x%20y") ≡ some "x%20y"
unfolding disposition_name to_lower
charset_test = refl
