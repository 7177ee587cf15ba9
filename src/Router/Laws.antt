-- ===== src/Router/Laws.antt =====
-- Where a navigation leads.
use distributed_file_storage.Prelude.{
  String, false, some, List, ◌∷◌, ◌≡◌, ◌≢◌, refl, str_eq, eq_iff, arith, ◌==◌,
}
use distributed_file_storage.Heartbeat.NodeMap.{get, put, get-put}
use distributed_file_storage.Router.{
  Router, RouteHandler, add_route, route, handle_route_change, get_current_path, navigate, hash_of,
  default_handler,
}
use Prim.Native.Char.{Char, code}

get-put_other :
    (key j : String) (h : RouteHandler) (m : List (String × RouteHandler))
    → key ≢ j
    → get j (put key h m) ≡ get j m
get-put_other key j h m differ = ground (arith, get-put key j h m, eq_iff key j)

get-put_same :
    (key : String) (h : RouteHandler) (m : List (String × RouteHandler))
    → get key (put key h m) ≡ some h
get-put_same key h m = ground (arith, get-put key key h m, eq_iff key key)

-- The route of a path is the handler that was added last for it. A handler added for another path, which
-- is neither of the two that stand in for the root, leaves the route as it was.
pub route-add_route :
    (path other : String) (h : RouteHandler) (r : Router)
    → other ≢ path
    → other ≢ "/"
    → other ≢ "/dashboard"
    → (route path (add_route path h r) ≡ h) × (route path (add_route other h r) ≡ route path r)
unfolding route add_route default_handler
route-add_route path other h r differ root dashboard = (
  rw (get-put_same path h r.routes) refl,
  rw
      (
        get-put_other other path h r.routes differ,
        get-put_other other "/" h r.routes root,
        get-put_other other "/dashboard" h r.routes dashboard,
      )
      refl,
)

-- A navigation to a path with a handler and without a leading `#`, from another hash, calls that handler
-- once more and makes the path the current one.
pub navigate_calls_handler :
    (c d : Char) (rest : String) (h : RouteHandler) (r : Router)
    → get (String.◌∷◌ c (String.◌∷◌ d rest)) r.routes ≡ some h
    → (code c == 35) ≡ false
    → str_eq (String.◌∷◌ "#" (String.◌∷◌ c (String.◌∷◌ d rest))) r.hash ≡ false
    → let r' = navigate (String.◌∷◌ c (String.◌∷◌ d rest)) r in
      (r'.called ≡ h ∷ r.called) × (r'.current_path ≡ String.◌∷◌ c (String.◌∷◌ d rest))
unfolding navigate hash_of handle_route_change get_current_path route
navigate_calls_handler c d rest h r found no_hash elsewhere =
    rw (no_hash, elsewhere, found) (refl, refl)
