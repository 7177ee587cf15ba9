-- ===== src/Boundary/Escape.antt =====
-- `escapeHtml` of frontend/src/components/ErrorBoundary.ts beside a decoder of its five entities.
use mathlib.Core.List.{append_assoc}
use distributed_file_storage.Prelude.{
  ℕ, zero, suc, ◌≡◌, ◌≢◌, refl, ap, ◌∙◌, List, [], ◌∷◌, ◌++◌, if◌then◌else◌, codes, ◌==◌, is_prefix,
  All, All-append, arith,
}
use distributed_file_storage.Boundary.{replace_all, escape_html}

-- One character at a time: the entity of each character of markup, and another character as it is.
escape_char : ℕ → List ℕ
escape_char c =
    if c == 38
    then codes "&amp;"
    else if c == 60
    then codes "&lt;"
    else if c == 62
    then codes "&gt;"
    else if c == 34
    then codes "&quot;"
    else if c == 39
    then codes "&#039;"
    else c ∷ []

escape_each : List ℕ → List ℕ
escape_each [] = []
escape_each (c ∷ s) = escape_char c ++ escape_each s

replace_all-append :
    (c : ℕ) (w s t : List ℕ) → replace_all c w (s ++ t) ≡ replace_all c w s ++ replace_all c w t
replace_all-append c w [] t = refl
replace_all-append c w (d ∷ s) t = rw (replace_all-append c w s t, append_assoc)

escape_html-append : (s t : List ℕ) → escape_html (s ++ t) ≡ escape_html s ++ escape_html t
unfolding escape_html
escape_html-append s t = simp (replace_all-append)

escape_html-escape_char : (c : ℕ) → escape_html (c ∷ []) ≡ escape_char c
unfolding escape_html escape_char
escape_html-escape_char c = ground arith

escape_html-escape_each : (s : List ℕ) → escape_html s ≡ escape_each s
unfolding escape_each escape_html
escape_html-escape_each [] = refl
escape_html-escape_each (c ∷ s) =
    escape_html-append (c ∷ []) s
    ∙ ap (λ w. w ++ escape_html s) (escape_html-escape_char c)
    ∙ ap (λ t. escape_char c ++ t) (escape_html-escape_each s)

-- The character that an entity stands for, by the text after its ampersand, and the length of that text. An
-- ampersand that begins no entity stands for itself.
abbrev entity : List ℕ → ℕ × ℕ
entity s =
    if is_prefix (codes "amp;") s
    then (38, 4)
    else if is_prefix (codes "lt;") s
    then (60, 3)
    else if is_prefix (codes "gt;") s
    then (62, 3)
    else if is_prefix (codes "quot;") s
    then (34, 5)
    else if is_prefix (codes "#039;") s
    then (39, 5)
    else (38, 0)

-- Reads the text after the first characters, which belong to an entity.
abbrev unescape_after : ℕ → List ℕ → List ℕ
unescape_after skipped [] = []
unescape_after (suc skipped) (c ∷ s) = unescape_after skipped s
unescape_after zero (c ∷ s) =
    let (d, skipped) = if c == 38 then entity s else (c, 0) in d ∷ unescape_after skipped s

abbrev pub unescape : List ℕ → List ℕ
unescape s = unescape_after 0 s

unescape-escape_char : (c : ℕ) (t : List ℕ) → unescape (escape_char c ++ t) ≡ c ∷ unescape t
unfolding escape_char
unescape-escape_char c t = ground arith

unescape-escape_each : (s : List ℕ) → unescape (escape_each s) ≡ s
unfolding escape_each
unescape-escape_each [] = refl
unescape-escape_each (c ∷ s) =
    unescape-escape_char c (escape_each s) ∙ ap (λ t. c ∷ t) (unescape-escape_each s)

-- No angle bracket and no quote.
abbrev pub IsPlain : ℕ → Type 0
IsPlain c = (c ≢ 60) × (c ≢ 62) × (c ≢ 34) × (c ≢ 39)

escape_char-IsPlain : (c : ℕ) → All IsPlain (escape_char c)
unfolding escape_char
escape_char-IsPlain c = ground arith

escape_each-IsPlain : (s : List ℕ) → All IsPlain (escape_each s)
unfolding escape_each
escape_each-IsPlain [] = tt
escape_each-IsPlain (c ∷ s) =
    All-append IsPlain (escape_char c) (escape_each s) (escape_char-IsPlain c)
      (escape_each-IsPlain s)

-- A reader of the five entities gets the text back from its escape, and the escape has no angle bracket and
-- no quote.
pub unescape-escape_html :
    (s : List ℕ) → (unescape (escape_html s) ≡ s) × All IsPlain (escape_html s)
unescape-escape_html s =
    rw (escape_html-escape_each s) (unescape-escape_each s, escape_each-IsPlain s)
