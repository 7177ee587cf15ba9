-- ===== src/Focus/Trap.antt =====
-- The focus trap of a drawer under any sequence of Tab and Shift+Tab: the focus goes round the focusable
-- elements of the container. The browser's own step is a parameter with the laws of sequential navigation.
use distributed_file_storage.Prelude.{
  ℕ, zero, suc, ◌-◌, ◌<◌, ◌≡◌, ◌≢◌, refl, sym, ap, subst, ◌∙◌, arith, Bool, true, false, Bool-cases,
  some, List, [], ◌∷◌, ◌==◌, if◌then◌else◌, ==_iff, length, get_elem?, All, inl, inr,
}
use distributed_file_storage.Focus.{
  Container, Document, focus, get_focusable_elements, tab, last, trapped, trap_focus,
}

-- The browser's answer to a Tab that no one prevents: inside the container it moves by one element, and it
-- changes nothing but the focus.
pub record TabOrder (es : List ℕ) (step : Bool → Document → Document) : Type 0 where
  pub forward :
      (d : Document) (i : ℕ)
      → d.active_element ≡ get_elem? es i
      → suc i < length es
      → (step false d).active_element ≡ get_elem? es (suc i)
  pub backward :
      (d : Document) (i : ℕ)
      → d.active_element ≡ get_elem? es (suc i)
      → suc i < length es
      → (step true d).active_element ≡ get_elem? es i
  pub keeps : (shift : Bool) (d : Document) → (step shift d).grants_focus ≡ d.grants_focus

-- A press of Tab: the trap, and the browser's step unless the trap prevented it.
unfoldable pub press : Container → (Bool → Document → Document) → Bool → Document → Document
press c step shift d =
    let (d', handled) = trap_focus c (tab shift) d in if handled then d' else step shift d

unfoldable pub press_all :
    Container → (Bool → Document → Document) → List Bool → Document → Document
press_all c step [] d = d
press_all c step (shift ∷ shifts) d = press_all c step shifts (press c step shift d)

-- One place on, or back, in a ring of `n` places.
unfoldable pub neighbour : ℕ → Bool → ℕ → ℕ
neighbour n false i = if suc i == n then 0 else suc i
neighbour n true i = if i == 0 then n - 1 else i - 1

unfoldable pub walk : ℕ → List Bool → ℕ → ℕ
walk n [] i = i
walk n (shift ∷ shifts) i = walk n shifts (neighbour n shift i)

-- No element stands in the list twice.
abbrev pub IsDistinct : List ℕ → Type 0
IsDistinct [] = Unit
IsDistinct (e ∷ es) = All (λ f. e ≢ f) es × IsDistinct es

get_elem?-All : (P : ℕ → Type 0) (es : List ℕ) (i a : ℕ) → All P es → get_elem? es i ≡ some a → P a
get_elem?-All P [] i a h e = cc
get_elem?-All P (x ∷ es) zero a (p, h) e = subst P (some_inj e) p
  where
    some_inj : some x ≡ some a → x ≡ a
    some_inj e = cc
get_elem?-All P (x ∷ es) (suc i) a (p, h) e = get_elem?-All P es i a h e

-- In a list without repetition an element has one place.
get_elem?-inj :
    (es : List ℕ) (i j a : ℕ)
    → IsDistinct es
    → get_elem? es i ≡ some a
    → get_elem? es j ≡ some a
    → i ≡ j
get_elem?-inj [] i j a h p q = cc
get_elem?-inj (x ∷ es) zero zero a h p q = refl
get_elem?-inj (x ∷ es) zero (suc j) a (new, h) p q =
    absurd (get_elem?-All (λ f. x ≢ f) es j a new q (cc))
get_elem?-inj (x ∷ es) (suc i) zero a (new, h) p q =
    absurd (get_elem?-All (λ f. x ≢ f) es i a new p (cc))
get_elem?-inj (x ∷ es) (suc i) (suc j) a (new, h) p q = ap suc (get_elem?-inj es i j a h p q)

get_elem?-last : (e : ℕ) (es : List ℕ) → get_elem? (e ∷ es) (length es) ≡ some (last e es)
get_elem?-last e [] = refl
get_elem?-last e (f ∷ es) = get_elem?-last f es

get_elem?-some : (es : List ℕ) (i : ℕ) → i < length es → (a : ℕ) × (get_elem? es i ≡ some a)
get_elem?-some [] i h = absurd (omega arith)
get_elem?-some (x ∷ es) zero h = (x, refl)
get_elem?-some (x ∷ es) (suc i) h = get_elem?-some es i (omega arith)

same_test : (b c : Bool) → (b ≡ true → c ≡ true) → (c ≡ true → b ≡ true) → b ≡ c
same_test true c h k = sym (h refl)
same_test false true h k = k refl
same_test false false h k = refl

-- To ask for an element is to ask for its place.
place_test :
    (es : List ℕ) (i j a b : ℕ)
    → IsDistinct es
    → get_elem? es i ≡ some a
    → get_elem? es j ≡ some b
    → (a == b) ≡ (i == j)
place_test es i j a b distinct p q =
    same_test (a == b) (i == j)
      (λ e.
        let same : b ≡ a = ground (arith, ==_iff a b) in
        (==_iff i j).1 (get_elem?-inj es i j a distinct p (q ∙ ap some same)))
      (λ e.
        let same : j ≡ i = ground (arith, ==_iff i j) in
        let found : some a ≡ some b = sym p ∙ ap (get_elem? es) (sym same) ∙ q in
        (==_iff a b).1 (cc))

-- The trap on a list of elements, with the browser's step behind it.
abbrev pressed : List ℕ → ℕ → (Bool → Document → Document) → Bool → Document → Document
pressed es self step shift d =
    let (d', handled) = trapped es self shift d in if handled then d' else step shift d

focus-active :
    (e : ℕ) (d : Document) → d.grants_focus e ≡ true → (focus e d).active_element ≡ some e
focus-active e d h = rw h

module _ (e : ℕ) (es : List ℕ) (self : ℕ) (step : Bool → Document → Document) where
  pressed-forward :
      (i a : ℕ) (d : Document)
      → TabOrder (e ∷ es) step
      → IsDistinct (e ∷ es)
      → d.grants_focus e ≡ true
      → i < length (e ∷ es)
      → d.active_element ≡ some a
      → get_elem? (e ∷ es) i ≡ some a
      → (pressed (e ∷ es) self step false d).active_element
        ≡ get_elem? (e ∷ es) (neighbour (length (e ∷ es)) false i)
  unfolding neighbour
  pressed-forward i a d order distinct grants within active place =
      let test =
        place_test (e ∷ es) i (length es) a (last e es) distinct place (get_elem?-last e es) in
      elim (Bool-cases (i == length es)) [
        | inl at_end ↦ ground arith
        | inr inside ↦ ground (arith, order.forward d i)
      ]

  pressed-backward :
      (i a : ℕ) (d : Document)
      → TabOrder (e ∷ es) step
      → IsDistinct (e ∷ es)
      → a ≢ self
      → d.grants_focus (last e es) ≡ true
      → i < length (e ∷ es)
      → d.active_element ≡ some a
      → get_elem? (e ∷ es) i ≡ some a
      → (pressed (e ∷ es) self step true d).active_element
        ≡ get_elem? (e ∷ es) (neighbour (length (e ∷ es)) true i)
  unfolding neighbour
  pressed-backward zero a d order distinct apart grants within active place =
      let test = place_test (e ∷ es) 0 0 a e distinct place refl in
      ground (arith, get_elem?-last e es)
  pressed-backward (suc i) a d order distinct apart grants within active place =
      let test = place_test (e ∷ es) (suc i) 0 a e distinct place refl in
      ground (arith, order.backward d i, ==_iff a self)

All-last : (P : ℕ → Type 0) (e : ℕ) (es : List ℕ) → All P (e ∷ es) → P (last e es)
All-last P e [] (p, h) = p
All-last P e (f ∷ es) (p, h) = All-last P f es h

neighbour-lt : (n : ℕ) (shift : Bool) (i : ℕ) → i < n → neighbour n shift i < n
unfolding neighbour
neighbour-lt n false i h = ground arith
neighbour-lt n true i h = ground arith

pressed-get_elem? :
    (es : List ℕ) (self : ℕ) (step : Bool → Document → Document) (shift : Bool) (i : ℕ)
    (d : Document)
    → TabOrder es step
    → IsDistinct es
    → All (λ e. e ≢ self) es
    → All (λ e. d.grants_focus e ≡ true) es
    → i < length es
    → d.active_element ≡ get_elem? es i
    → (pressed es self step shift d).active_element ≡ get_elem? es (neighbour (length es) shift i)
pressed-get_elem? [] self step shift i d order distinct apart grants within active =
    absurd (omega arith)
pressed-get_elem? (e ∷ es) self step false i d order distinct apart grants within active =
    let (a, place) = get_elem?-some (e ∷ es) i within in
    pressed-forward e es self step i a d order distinct grants.0 within (active ∙ place) place
pressed-get_elem? (e ∷ es) self step true i d order distinct apart grants within active =
    let (a, place) = get_elem?-some (e ∷ es) i within in
    pressed-backward e es self step i a d order distinct
      (get_elem?-All (λ f. f ≢ self) (e ∷ es) i a apart place)
      (All-last (λ f. d.grants_focus f ≡ true) e es grants) within (active ∙ place) place

pressed-grants_focus :
    (es : List ℕ) (self : ℕ) (step : Bool → Document → Document) (shift : Bool) (d : Document)
    → TabOrder es step
    → (pressed es self step shift d).grants_focus ≡ d.grants_focus
pressed-grants_focus [] self step shift d order = order.keeps shift d
pressed-grants_focus (e ∷ es) self step false d order = ground (arith, order.keeps false d)
pressed-grants_focus (e ∷ es) self step true d order = ground (arith, order.keeps true d)

-- With the focus on a focusable element of the drawer, any sequence of Tab and Shift+Tab moves it round
-- the ring of those elements and never out of it: after the sequence it stands at the place that a walk of
-- single steps modulo the length of the ring reaches. The elements are distinct, none is the container,
-- the browser grants them the focus, and its own step is that of sequential navigation among them.
pub press_all-walk :
    (c : Container) (step : Bool → Document → Document) (shifts : List Bool) (i : ℕ) (d : Document)
    → TabOrder (get_focusable_elements c) step
    → IsDistinct (get_focusable_elements c)
    → All (λ e. e ≢ c.self) (get_focusable_elements c)
    → All (λ e. d.grants_focus e ≡ true) (get_focusable_elements c)
    → i < length (get_focusable_elements c)
    → d.active_element ≡ get_elem? (get_focusable_elements c) i
    → let n = length (get_focusable_elements c) in
      ((press_all c step shifts d).active_element
        ≡ get_elem? (get_focusable_elements c) (walk n shifts i))
      × (walk n shifts i < n)
unfolding press_all walk press trap_focus
press_all-walk c step [] i d order distinct apart grants within active = (active, within)
press_all-walk c step (shift ∷ shifts) i d order distinct apart grants within active =
    let es = get_focusable_elements c in
    press_all-walk c step shifts (neighbour (length es) shift i) (press c step shift d) order
      distinct apart
      (subst (λ g. All (λ e. g e ≡ true) es)
        (sym (pressed-grants_focus es c.self step shift d order)) grants)
      (neighbour-lt (length es) shift i within)
      (pressed-get_elem? es c.self step shift i d order distinct apart grants within active)
