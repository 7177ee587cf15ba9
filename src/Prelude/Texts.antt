-- ===== src/Prelude/Texts.antt =====
-- Texts of the program: truthiness, the code points that its searches walk, and decimals.
use Prim.Native.Nat.{ℕ, zero, suc, ◌+◌, ◌/◌, ◌%◌, ◌<◌}
use mathlib.Core.Path.{◌≡◌}
use mathlib.Core.Logic.{inl, inr}
use native.Mathlib.Omega.{arith}
use Prim.Native.Char.{code}
use Prim.Native.String
use Prim.Native.String.{String}
use mathlib.Core.Bool.{Bool, true, false, not, ◌&&◌, ◌||◌}
use mathlib.Core.List.{List, [], ◌∷◌, map}
use mathlib.Core.Option.{Option, none, some}
use distributed_file_storage.Prelude.Tests.{leb, ltb, ◌==◌, if◌then◌else◌, Bool-cases}

-- An empty text is falsy, and so is a missing one.
abbrev pub truthy : String → Bool
truthy String.[] = false
truthy (String.◌∷◌ c s) = true

abbrev pub truthy? : Option String → Bool
truthy? none = false
truthy? (some s) = truthy s

-- `s || d` on a text that may be missing
abbrev pub or_text : Option String → String → String
or_text none d = d
or_text (some String.[]) d = d
or_text (some (String.◌∷◌ c s)) d = String.◌∷◌ c s

abbrev pub codes : String → List ℕ
codes String.[] = []
codes (String.◌∷◌ c s) = code c ∷ codes s

-- White space: the characters of `\s`, which `trim` removes too.
abbrev pub is_space : ℕ → Bool
is_space c =
    leb 9 c && leb c 13
    || c == 32
    || c == 160
    || c == 5760
    || leb 8192 c && leb c 8202
    || c == 8232
    || c == 8233
    || c == 8239
    || c == 8287
    || c == 12288
    || c == 65279

-- `s.trim() !== ''`: some character is no white space.
abbrev pub has_text : List ℕ → Bool
has_text [] = false
has_text (c ∷ s) = not (is_space c) || has_text s

-- `toLowerCase` on the ASCII letters; another character is left as it is.
unfoldable pub to_lower : ℕ → ℕ
to_lower c = if leb 65 c && leb c 90 then c + 32 else c

abbrev pub to_lower_case : List ℕ → List ℕ
to_lower_case = map to_lower

abbrev pub is_prefix : List ℕ → List ℕ → Bool
is_prefix [] s = true
is_prefix (c ∷ t) [] = false
is_prefix (c ∷ t) (d ∷ s) = c == d && is_prefix t s

-- `s.includes(t)`
abbrev pub includes : List ℕ → List ℕ → Bool
includes [] t = is_prefix t []
includes (d ∷ s) t = let rest = includes s t in if is_prefix t (d ∷ s) then true else rest

digit : ℕ → String
digit d = String.slice "0123456789" d (d + 1)

-- The digits of a number that has at most `fuel` of them, before the text `rest`.
decimal_from : ℕ → ℕ → String → String
unfolding digit
decimal_from zero n rest = rest
decimal_from (suc fuel) n rest =
    let shown = String.◌++◌ (digit (n % 10)) rest in
    let more = decimal_from fuel (n / 10) shown in if ltb n 10 then shown else more

-- A number in a template text. A number has at most as many digits as its successor counts.
unfoldable pub decimal : ℕ → String
unfolding decimal_from
decimal n = decimal_from (suc n) n ""

-- A template text from its pieces.
unfoldable pub template : List String → String
template [] = ""
template (s ∷ rest) = String.◌++◌ s (template rest)

-- Fuel above the number is enough: more changes nothing.
decimal_from-enough :
    (f g n : ℕ) (rest : String) → n < f → n < g → decimal_from f n rest ≡ decimal_from g n rest
unfolding decimal_from
decimal_from-enough zero g n rest p q = absurd (omega (arith, p))
decimal_from-enough (suc f) zero n rest p q = absurd (omega (arith, q))
decimal_from-enough (suc f) (suc g) n rest p q =
    let shown = String.◌++◌ (digit (n % 10)) rest in
    elim (Bool-cases (ltb n 10)) [
      | inl short ↦ rw short
      | inr long ↦ rw long (
          decimal_from-enough f g (n / 10) shown (ground (arith, long, p))
            (ground (arith, long, q)))
    ]
