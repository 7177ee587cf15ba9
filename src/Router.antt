-- ===== src/Router.antt =====
-- `Router` of frontend/src/router/router.ts: a table of routes and the hash of the window's address.
-- A handler is a number; `called` lists the calls, the latest first. It models a browser, where `window`
-- is there; it keeps the text of a hash as it is written, and sends the event of a change before the next
-- call.
pub mod Laws
use distributed_file_storage.Prelude.{
  ℕ, String, Option, none, some, List, [], ◌∷◌, or_text, str_eq, if◌then◌else◌, ◌==◌, ◌||◌, ◌≡◌,
  refl,
}
use distributed_file_storage.Heartbeat.NodeMap.{get, put}
use Prim.Native.String
use Prim.Native.Char.{code}

-- A handler of the client, or the one that warns of a route that is not there.
pub data RouteHandler : Type 0 where
  handler : ℕ → RouteHandler
  warning : RouteHandler

pub record Router : Type 0 where
  pub routes : List (String × RouteHandler)
  pub not_found_handler : RouteHandler
  pub current_path : String
  -- `window.location.hash`, with its leading `#`
  pub hash : String
  pub called : List RouteHandler

unfoldable pub new : String → Router
new hash = record {
  routes = [];
  not_found_handler = warning;
  current_path = "";
  hash = hash;
  called = [];
}

unfoldable pub add_route : String → RouteHandler → Router → Router
add_route path h r = record r { routes = put path h r.routes }

unfoldable pub set_not_found : RouteHandler → Router → Router
set_not_found h r = record r { not_found_handler = h }

abbrev pub without_first : String → String
without_first String.[] = ""
without_first (String.◌∷◌ c s) = s

unfoldable pub get_current_path : Router → String
get_current_path r = or_text (some (without_first r.hash)) "/"

unfoldable pub get_active_route : Router → String
get_active_route r = r.current_path

-- `this.routes.get('/') || this.routes.get('/dashboard')`
abbrev or_handler : Option RouteHandler → Option RouteHandler → Option RouteHandler
or_handler none h = h
or_handler (some g) h = some g

unfoldable pub default_handler : Router → Option RouteHandler
default_handler r = or_handler (get "/" r.routes) (get "/dashboard" r.routes)

-- The handler that a path is given to.
abbrev chosen : Option RouteHandler → Option RouteHandler → RouteHandler → RouteHandler
chosen (some h) default h' = h
chosen none (some h) h' = h
chosen none none h' = h'

unfoldable pub route : String → Router → RouteHandler
unfolding default_handler
route path r =
    let default = if str_eq path "" || str_eq path "/" then default_handler r else none in
    chosen (get path r.routes) default r.not_found_handler

unfoldable pub handle_route_change : Router → Router
unfolding get_current_path route
handle_route_change r =
    let path = get_current_path r in
    record r { current_path = path; called = route path r ∷ r.called }

unfoldable pub start : Router → Router
unfolding handle_route_change
start r = handle_route_change r

-- ``path.startsWith('#') ? path : `#${path}` ``
unfoldable pub hash_of : String → String
hash_of String.[] = "#"
hash_of (String.◌∷◌ c s) = if code c == 35 then String.◌∷◌ c s else String.◌∷◌ "#" (String.◌∷◌ c s)

-- The hash that the browser keeps: it writes an empty fragment as the empty text.
abbrev pub kept_hash : String → String
kept_hash String.[] = ""
kept_hash (String.◌∷◌ c String.[]) = ""
kept_hash (String.◌∷◌ c (String.◌∷◌ d s)) = String.◌∷◌ c (String.◌∷◌ d s)

-- `navigate` and the `hashchange` event that the browser sends if the hash is another.
unfoldable pub navigate : String → Router → Router
unfolding hash_of handle_route_change
navigate path r =
    let hash = kept_hash (hash_of path) in
    let moved = handle_route_change (record r { hash = hash }) in
    if str_eq hash r.hash then r else moved
