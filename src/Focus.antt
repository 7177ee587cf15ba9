-- ===== src/Focus.antt =====
-- `FocusManager` of frontend/src/utils/focusManager.ts over a model of the page. An element is a number.
-- Which elements a selector finds, and whether the browser grants a focus, are parts of the page.
pub mod Trap
use distributed_file_storage.Prelude.{
  ℕ, zero, suc, ◌-◌, Bool, true, false, ◌&&◌, ◌||◌, not, Option, none, some, List, [], ◌∷◌, map,
  ltb, ◌==◌, if◌then◌else◌, filter, length, get_elem?,
}
use distributed_file_storage.Runtime.Listeners.{has}

-- An element inside a container, with what the browser says of it.
pub record Element : Type 0 where
  pub id : ℕ
  -- whether it matches the selector of `getFocusableElements`
  pub matches : Bool
  pub offset_width : ℕ
  pub offset_height : ℕ
  pub client_rects : ℕ
  -- whether its `tabIndex` is at least 0
  pub in_tab_order : Bool

pub record Container : Type 0 where
  pub self : ℕ
  pub descendants : List Element

-- `attached` are the elements in the body.
pub record Document : Type 0 where
  pub active_element : Option ℕ
  pub attached : List ℕ
  pub grants_focus : ℕ → Bool

pub record FocusManager : Type 0 where
  pub previous_focus : Option ℕ

abbrev pub new : FocusManager
new = record { previous_focus = none }

-- `element.focus()`
abbrev pub focus : ℕ → Document → Document
focus e d = if d.grants_focus e then record d { active_element = some e } else d

abbrev pub captured : Option ℕ → FocusManager → FocusManager
captured none m = m
captured (some e) m = record { previous_focus = some e }

unfoldable pub capture_active_focus : Document → FocusManager → FocusManager
capture_active_focus d m = captured d.active_element m

unfoldable pub get_previous_focus : FocusManager → Option ℕ
get_previous_focus m = m.previous_focus

unfoldable pub clear_previous_focus : FocusManager → FocusManager
clear_previous_focus m = new

abbrev pub restored : Option ℕ → Document → Document × Bool
restored none d = (d, false)
restored (some e) d = if has e d.attached then (focus e d, true) else (d, false)

unfoldable pub restore_previous_focus : Document → FocusManager → FocusManager × Document × Bool
restore_previous_focus d m = let (d', done) = restored m.previous_focus d in (new, d', done)

-- `offsetWidth > 0 || offsetHeight > 0 || getClientRects().length > 0 || tabIndex >= 0`
abbrev is_shown : Element → Bool
is_shown e = ltb 0 e.offset_width || ltb 0 e.offset_height || ltb 0 e.client_rects || e.in_tab_order

unfoldable pub get_focusable_elements : Container → List ℕ
get_focusable_elements c = map (λ e. e.id) (filter is_shown (filter (λ e. e.matches) c.descendants))

-- The first focusable element, or the container.
abbrev first_or_self : List ℕ → ℕ → ℕ
first_or_self [] c = c
first_or_self (e ∷ es) c = e

-- `preferred` is what the preferred selector finds, if one is given.
unfoldable pub focus_initial : Option ℕ → Container → Document → Document × Option ℕ
unfolding get_focusable_elements
focus_initial (some e) c d = (focus e d, some e)
focus_initial none c d =
    let target = first_or_self (get_focusable_elements c) c.self in (focus target d, some target)

pub data Key : Type 0 where
  tab : (shift : Bool) → Key
  other : Key

abbrev pub is_active : ℕ → Option ℕ → Bool
is_active e none = false
is_active e (some a) = a == e

abbrev pub last : ℕ → List ℕ → ℕ
last e [] = e
last e (f ∷ es) = last f es

abbrev trapped : List ℕ → ℕ → Bool → Document → Document × Bool
trapped [] self shift d = (d, false)
trapped (e ∷ es) self true d =
    if is_active e d.active_element || is_active self d.active_element
    then (focus (last e es) d, true)
    else (d, false)
trapped (e ∷ es) self false d =
    if is_active (last e es) d.active_element then (focus e d, true) else (d, false)

-- The flag says that the event is handled, so that the browser's own step is prevented.
unfoldable pub trap_focus : Container → Key → Document → Document × Bool
trap_focus c other d = (d, false)
trap_focus c (tab shift) d = trapped (get_focusable_elements c) c.self shift d
