-- ===== src/Client/Upload/Begin.antt =====
-- The beginning of `uploadFile` of frontend/src/api/client.ts: which of its two paths it takes, and what it
-- sends on it.
use distributed_file_storage.Prelude.{
  ℕ, String, Bool, not, ◌&&◌, Option, List, [], is_some, if◌then◌else◌,
}
use distributed_file_storage.Runtime.{Runtime}
use distributed_file_storage.Files.Upload.{Source}
use distributed_file_storage.Client.{Client, Sent}
use distributed_file_storage.Client.Upload.{
  UploadOptions, FilenameOrOptions, Progress, Upload, chosen_options, new_upload,
}
use distributed_file_storage.Client.Upload.Fetch.{begin_fetch}

-- A POST of a form with the file under its name.
pub record Posted : Type 0 where
  pub url : String
  pub timeout_ms : ℕ
  pub headers : List (String × String)
  pub form : String × String

pub data Begun : Type 0 where
  by_xhr : Upload → Posted → Begun
  by_fetch : Upload → Sent → Begun

abbrev posted : Upload → List (String × String) → Posted
posted u headers = record {
  url = u.url;
  timeout_ms = u.timeout_ms;
  headers = headers;
  form = ("file", u.name);
}

-- `has_xhr` says that the environment has an `XMLHttpRequest`.
unfoldable pub begin_upload_file :
    {R : Type 0}
    → Bool
    → Client
    → Source
    → Option FilenameOrOptions
    → Option UploadOptions
    → Runtime R
    → Begun × List Progress × Runtime R
unfolding begin_fetch
begin_upload_file has_xhr client src filename_or_options extra rt =
    let opts = chosen_options filename_or_options extra in
    let u = new_upload client src filename_or_options extra in
    let (sent, calls, rt') = begin_fetch u opts.headers rt in
    if has_xhr && not (is_some opts.signal)
    then (by_xhr u (posted u opts.headers), [], rt)
    else (by_fetch u sent, calls, rt')
