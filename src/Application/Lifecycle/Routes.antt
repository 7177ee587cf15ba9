-- ===== src/Application/Lifecycle/Routes.antt =====
-- Where the addresses of the page lead, with the routes that `init` of frontend/src/main.ts adds.
use distributed_file_storage.Prelude.{
  String, str_eq, eq_iff, ◌≡◌, refl, ap, ◌∙◌, Bool, true, false, ◌||◌, All, subst, sym, Bool-cases,
  inl, inr, List, [], ◌∷◌, if◌then◌else◌,
}
use distributed_file_storage.Heartbeat.NodeMap.{get, put}
use distributed_file_storage.Router.{
  Router, RouteHandler, new, add_route, set_not_found, default_handler, route, navigate, start,
  handle_route_change, get_current_path, kept_hash, hash_of,
}
use distributed_file_storage.Application.Lifecycle.{with_routes, draw_dashboard, open_tokens}

-- The page that an address asks for.
abbrev pub page_of : String → RouteHandler
page_of path = if str_eq "/tokens" path then open_tokens else draw_dashboard

route-with_routes : (hash path : String) → route path (with_routes (new hash)) ≡ page_of path
unfolding route with_routes new add_route set_not_found default_handler get put
route-with_routes hash path = elim (Bool-cases (str_eq "/tokens" path)) [
  | inl t ↦
      subst (λ p. route p (with_routes (new hash)) ≡ page_of p) ((eq_iff "/tokens" path).0 t) refl
  | inr t ↦ elim (Bool-cases (str_eq "/" path)) [
    | inl a ↦ rw (t, a) refl
    | inr a ↦ elim (Bool-cases (str_eq "/dashboard" path)) [
      | inl b ↦ rw (t, a, b) refl
      | inr b ↦ elim (Bool-cases (str_eq path "" || str_eq path "/")) [
        | inl d ↦ rw (t, a, b, d) refl
        | inr d ↦ rw (t, a, b, d) refl
      ]
    ]
  ]
]

abbrev IsPage : RouteHandler → Type 0
IsPage h = (path : String) × (h ≡ page_of path)

-- The handler that was called last is that of the current path, and all before are those of some path.
abbrev pub IsLed : Router → Type 0
IsLed r =
    (before : List RouteHandler) × (r.called ≡ page_of r.current_path ∷ before) × All IsPage before

-- The routes are those that `init` has added.
abbrev HasRoutes : Router → Type 0
HasRoutes r =
    (r.routes ≡ (with_routes (new "")).routes)
    × (r.not_found_handler ≡ (with_routes (new "")).not_found_handler)

route-HasRoutes : (path : String) (r : Router) → HasRoutes r → route path r ≡ page_of path
unfolding route
route-HasRoutes path r (routes, not_found) =
    (λ j. route path (record r { routes = routes j; not_found_handler = not_found j }))
    ∙ route-with_routes "" path

abbrev pub navigate_all : List String → Router → Router
navigate_all [] r = r
navigate_all (path ∷ paths) r = navigate_all paths (navigate path r)

IsLed-if :
    (b : Bool) (r s : Router)
    → HasRoutes r × IsLed r
    → HasRoutes s × IsLed s
    → HasRoutes (if b then r else s) × IsLed (if b then r else s)
IsLed-if true r s p q = p
IsLed-if false r s p q = q

handle-IsLed :
    (r : Router)
    → HasRoutes r
    → All IsPage r.called
    → HasRoutes (handle_route_change r) × IsLed (handle_route_change r)
unfolding handle_route_change
handle-IsLed r (routes, not_found) pages = (
  (routes, not_found),
  (
    r.called,
    ap (λ h. h ∷ r.called) (route-HasRoutes (get_current_path r) r (routes, not_found)),
    pages,
  ),
)

navigate-IsLed :
    (path : String) (r : Router)
    → HasRoutes r
    → IsLed r
    → HasRoutes (navigate path r) × IsLed (navigate path r)
unfolding navigate
navigate-IsLed path r (routes, not_found) (before, called, pages) =
    let hash = kept_hash (hash_of path) in
    IsLed-if (str_eq hash r.hash) r (handle_route_change (record r { hash = hash }))
      ((routes, not_found), (before, called, pages))
      (handle-IsLed (record r { hash = hash }) (routes, not_found)
        (subst (All IsPage) (sym called) ((r.current_path, refl), pages)))

navigate_all-IsLed :
    (paths : List String) (r : Router) → HasRoutes r → IsLed r → IsLed (navigate_all paths r)
navigate_all-IsLed [] r has led = led
navigate_all-IsLed (path ∷ paths) r has led =
    let (has', led') = navigate-IsLed path r has led in
    navigate_all-IsLed paths (navigate path r) has' led'

-- After the start of the router with the routes of `init`, at whatever hash, and after any navigations: the
-- handler that was called last is that of the current path, which is the preview of the tokens for /tokens and
-- the dashboard for any other, and no call before went elsewhere.
pub routes-IsLed :
    (hash : String) (paths : List String)
    → IsLed (navigate_all paths (start (with_routes (new hash))))
unfolding start new with_routes add_route set_not_found
routes-IsLed hash paths =
    let (has, led) = handle-IsLed (with_routes (new hash)) (refl, refl) tt in
    navigate_all-IsLed paths (start (with_routes (new hash))) has led
