-- ===== src/Facade.antt =====
-- `ApiService` of frontend/src/services/apiService.ts, and the module functions of frontend/src/api/client.ts
-- that call the default client, up to the await of a call. The replies are those of the client.
pub mod Laws
use distributed_file_storage.Prelude.{
  ℕ, String, Bool, Option, none, some, List, [], or_else, if◌then◌else◌,
}
use distributed_file_storage.Runtime.{Runtime}
use distributed_file_storage.Client.{
  Client, new as new_client, RequestOptions, Sent, BaseUrlOrOptions, resolve_options,
  begin_get_health, begin_get_cluster_status, begin_get_nodes, begin_get_node_by_id,
  begin_get_files, begin_delete_file,
}
use distributed_file_storage.Files.Upload.{Source}
use distributed_file_storage.Client.Upload.{UploadOptions, FilenameOrOptions, Progress}
use distributed_file_storage.Client.Upload.Begin.{Begun, begin_upload_file}
use distributed_file_storage.Client.Download.{begin_download_file}

-- The two settings of `ClientConfig` that are values.
pub record ClientConfig : Type 0 where
  pub base_url : Option String
  pub default_timeout_ms : Option ℕ

pub record ApiService : Type 0 where
  pub client : Client
  pub current_base_url : String

-- The default of a parameter `options`.
abbrev no_options : RequestOptions
no_options = record {
  base_url = none;
  timeout_ms = none;
  signal = none;
  headers = [];
  method = none;
}

unfoldable pub create_client : ClientConfig → Client
create_client config = new_client config.base_url config.default_timeout_ms

-- `behind_proxy`: the page comes from the port of the development server.
unfoldable pub new : (behind_proxy : Bool) → ClientConfig → ApiService
unfolding create_client
new behind_proxy config =
    let url = or_else config.base_url (if behind_proxy then "" else "http://localhost:8000") in
    record {
      client = create_client (record {
        base_url = some url;
        default_timeout_ms = some (or_else config.default_timeout_ms 3000);
      });
      current_base_url = url;
    }

unfoldable pub set_base_url : String → ApiService → ApiService
unfolding create_client
set_base_url url s = record {
  client = create_client (record { base_url = some url; default_timeout_ms = none });
  current_base_url = url;
}

unfoldable pub get_base_url : ApiService → String
get_base_url s = s.current_base_url

unfoldable pub get_raw_client : ApiService → Client
get_raw_client s = s.client

-- `defaultClient`
unfoldable pub default_client : Client
default_client = new_client none none

abbrev pub given : Option BaseUrlOrOptions → Option RequestOptions → RequestOptions
given base extra = or_else (resolve_options base extra) no_options

module _ {R : Type 0} where
  unfoldable pub get_health : ApiService → Option RequestOptions → Runtime R → Sent × Runtime R
  get_health s options = begin_get_health s.client (or_else options no_options)

  unfoldable pub get_cluster_status :
      ApiService → Option RequestOptions → Runtime R → Sent × Runtime R
  get_cluster_status s options = begin_get_cluster_status s.client (or_else options no_options)

  unfoldable pub get_nodes : ApiService → Option RequestOptions → Runtime R → Sent × Runtime R
  get_nodes s options = begin_get_nodes s.client (or_else options no_options)

  unfoldable pub get_files : ApiService → Option RequestOptions → Runtime R → Sent × Runtime R
  get_files s options = begin_get_files s.client (or_else options no_options)

  unfoldable pub default_get_health :
      Option BaseUrlOrOptions → Option RequestOptions → Runtime R → Sent × Runtime R
  unfolding default_client
  default_get_health base extra = begin_get_health default_client (given base extra)

  unfoldable pub default_get_cluster_status :
      Option BaseUrlOrOptions → Option RequestOptions → Runtime R → Sent × Runtime R
  unfolding default_client
  default_get_cluster_status base extra = begin_get_cluster_status default_client (given base extra)

  unfoldable pub default_get_nodes :
      Option BaseUrlOrOptions → Option RequestOptions → Runtime R → Sent × Runtime R
  unfolding default_client
  default_get_nodes base extra = begin_get_nodes default_client (given base extra)

  unfoldable pub default_get_files :
      Option BaseUrlOrOptions → Option RequestOptions → Runtime R → Sent × Runtime R
  unfolding default_client
  default_get_files base extra = begin_get_files default_client (given base extra)

-- `encode` is the browser's `encodeURIComponent`.
module _ {R : Type 0} (encode : String → String) where
  unfoldable pub get_node_by_id :
      ApiService → String → Option RequestOptions → Runtime R → Sent × Runtime R
  get_node_by_id s id options = begin_get_node_by_id encode s.client id (or_else options no_options)

  unfoldable pub download_file :
      ApiService → String → Option RequestOptions → Runtime R → Sent × Runtime R
  download_file s id options = begin_download_file encode s.client id (or_else options no_options)

  unfoldable pub delete_file :
      ApiService → String → Option RequestOptions → Runtime R → Sent × Runtime R
  delete_file s id options = begin_delete_file encode s.client id (or_else options no_options)

  unfoldable pub default_get_node_by_id :
      String → Option BaseUrlOrOptions → Option RequestOptions → Runtime R → Sent × Runtime R
  unfolding default_client
  default_get_node_by_id id base extra =
      begin_get_node_by_id encode default_client id (given base extra)

  unfoldable pub default_download_file :
      String → Option BaseUrlOrOptions → Option RequestOptions → Runtime R → Sent × Runtime R
  unfolding default_client
  default_download_file id base extra =
      begin_download_file encode default_client id (given base extra)

  unfoldable pub default_delete_file :
      String → Option BaseUrlOrOptions → Option RequestOptions → Runtime R → Sent × Runtime R
  unfolding default_client
  default_delete_file id base extra = begin_delete_file encode default_client id (given base extra)

-- `has_xhr` says that the environment has an `XMLHttpRequest`.
module _ (has_xhr : Bool) {R : Type 0} where
  unfoldable pub upload_file :
      ApiService
      → Source
      → Option FilenameOrOptions
      → Option UploadOptions
      → Runtime R
      → Begun × List Progress × Runtime R
  upload_file s src filename_or_options extra =
      begin_upload_file has_xhr s.client src filename_or_options extra

  unfoldable pub default_upload_file :
      Source
      → Option FilenameOrOptions
      → Option UploadOptions
      → Runtime R
      → Begun × List Progress × Runtime R
  unfolding default_client
  default_upload_file src filename_or_options extra =
      begin_upload_file has_xhr default_client src filename_or_options extra
