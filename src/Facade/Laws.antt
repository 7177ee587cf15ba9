-- ===== src/Facade/Laws.antt =====
-- What the calls of the facade ask for.
use distributed_file_storage.Prelude.{String, ◌≡◌, refl, Bool, none, some, template, [], ◌∷◌}
use distributed_file_storage.Runtime.{Runtime}
use distributed_file_storage.Client.{
  build_url, begin_get_node_by_id, base_url, new as new_client, resolve_options,
}
use distributed_file_storage.Facade.{
  ClientConfig, new, set_base_url, get_node_by_id, default_get_node_by_id,
}

module _ {R : Type 0} (encode : String → String) where
  -- A call after setBaseUrl goes to the new address, and so does the module function that is given it; both
  -- have five seconds, also where the service was made with another time limit.
  pub set_base_url_forgets_timeout :
      (behind_proxy : Bool) (config : ClientConfig) (url id : String) (rt : Runtime R)
      → let moved = set_base_url url (new behind_proxy config) in
        let sent = (get_node_by_id encode moved id none rt).0 in
        (sent.url ≡ build_url url (template ("/nodes/" ∷ encode id ∷ [])))
        × (sent.timeout_ms ≡ 5000)
        × (get_node_by_id encode moved id none rt
            ≡ default_get_node_by_id encode id (some (base_url url)) none rt)
  unfolding set_base_url get_node_by_id default_get_node_by_id new begin_get_node_by_id new_client
      resolve_options
  set_base_url_forgets_timeout behind_proxy config url id rt = (refl, refl, refl)
