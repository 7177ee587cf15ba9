-- ===== src/Tests/Routes.antt =====
-- Runs of the router.
use distributed_file_storage.Prelude.{◌≡◌, refl, [], ◌∷◌}
use distributed_file_storage.Heartbeat.NodeMap.{get, put}
use distributed_file_storage.Router.{
  Router, handler, new, add_route, route, handle_route_change, start, get_current_path,
  default_handler,
}
use distributed_file_storage.Application.Lifecycle.{with_routes}
use distributed_file_storage.Application.Lifecycle.Routes.{IsLed, navigate_all, routes-IsLed}

abbrev pages : Router
pages = add_route "/files" (handler 2) (add_route "/dashboard" (handler 1) (new ""))

root_test : (start pages).called ≡ handler 1 ∷ []
unfolding start handle_route_change get_current_path route default_handler add_route new get put
root_test = refl

routes-IsLed_example :
    IsLed (navigate_all ("/tokens" ∷ "/files" ∷ []) (start (with_routes (new "#/dashboard"))))
routes-IsLed_example = routes-IsLed "#/dashboard" ("/tokens" ∷ "/files" ∷ [])
