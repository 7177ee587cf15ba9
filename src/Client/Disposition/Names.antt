-- ===== src/Client/Disposition/Names.antt =====
-- The names that come through a Content-Disposition header to `downloadFile` of frontend/src/api/client.ts.
use Prim.Native.Char.{code}
use Prim.Native.String
use Prim.Native.String.append
use distributed_file_storage.Prelude.{
  String, ◌≡◌, refl, ap, ◌∙◌, Bool, true, false, ◌||◌, some, ◌==◌, truthy, to_lower,
}
use distributed_file_storage.Client.Disposition.{
  take_value, trim_start, trim_end, disposition_name, quoted_value, match_filename,
}

-- A name without a quote and without a semicolon.
abbrev pub IsPlain : String → Type 0
IsPlain String.[] = Unit
IsPlain (String.◌∷◌ c s) = ((code c == 34 || code c == 39 || code c == 59) ≡ false) × IsPlain s

-- The concatenation, by its clauses.
abbrev glue : String → String → String
glue String.[] t = t
glue (String.◌∷◌ c s) t = String.◌∷◌ c (glue s t)

glue-append : (s t : String) → String.◌++◌ s t ≡ glue s t
glue-append String.[] t = append.nil t
glue-append (String.◌∷◌ c s) t = append.cons c s t ∙ ap (λ r. String.◌∷◌ c r) (glue-append s t)

take_value-all : (s : String) → IsPlain s → take_value s ≡ s
unfolding take_value
take_value-all String.[] plain = refl
take_value-all (String.◌∷◌ c s) (e, plain) =
    rw e (ap (λ r. String.◌∷◌ c r) (take_value-all s plain))

take_value-until : (s : String) → IsPlain s → take_value (glue s "\"") ≡ s
unfolding take_value
take_value-until String.[] plain = refl
take_value-until (String.◌∷◌ c s) (e, plain) =
    rw e (ap (λ r. String.◌∷◌ c r) (take_value-until s plain))

no_quote : (a b c : Bool) → (a || b || c) ≡ false → (a || b) ≡ false
no_quote true b c e = cc
no_quote false true c e = cc
no_quote false false c e = refl

quoted_value-plain : (s : String) → truthy s ≡ true → IsPlain s → quoted_value s ≡ some s
quoted_value-plain String.[] named plain = cc
quoted_value-plain (String.◌∷◌ c s) named (e, plain) =
    rw (no_quote (code c == 34) (code c == 39) (code c == 59) e)
      (rw (take_value-all (String.◌∷◌ c s) (e, plain)) refl)

-- A name that is not empty, without a quote and without a semicolon, is found, without its outer white space
-- and before it is decoded, both in the quoted form of the header and in the extended one.
pub disposition_name-quote :
    (name : String)
    → truthy name ≡ true
    → IsPlain name
    → (disposition_name (some (String.◌++◌ "attachment; filename=\"" (String.◌++◌ name "\"")))
        ≡ some (trim_end (trim_start name)))
      × (disposition_name (some (String.◌++◌ "attachment; filename*=utf-8''" name))
          ≡ some (trim_end (trim_start name)))
unfolding disposition_name to_lower
disposition_name-quote name named plain = (
  ap (λ s. disposition_name (some (String.◌++◌ "attachment; filename=\"" s)))
        (glue-append name "\"")
      ∙ ap (λ s. disposition_name (some s)) (glue-append "attachment; filename=\"" (glue name "\""))
      ∙ rw (take_value-until name plain, disposition_name, match_filename) (rw named refl),
  ap (λ s. disposition_name (some s)) (glue-append "attachment; filename*=utf-8''" name)
      ∙ rw (quoted_value-plain name named plain, disposition_name, match_filename) refl,
)
