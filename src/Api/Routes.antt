-- ===== src/Api/Routes.antt =====
-- `routes` of backend/src/api.rs: a request goes to its handler by its method and the segments of its
-- path below the mount. Reading the query and the body is the framework's.
use ryu_subtitles.Prelude.{Option, List, [], ◌∷◌, if◌then◌else◌, not}
use ryu_subtitles.Text.{Text, codes, text_eq}
use ryu_subtitles.Store.Model.{Platform, Db}
use ryu_subtitles.Api.Model.{Answer, Site, SettingsInput, CreateJobInput, DownloadQuery}
use ryu_subtitles.Api.Jobs
use ryu_subtitles.Api.Download
use ryu_subtitles.Api.Settings

-- The operations, with what their handlers extract. `create_job` holds the id that the store draws.
pub data Request : Type 0 where
  list_languages list_roots get_settings list_jobs : Request
  browse : Option Text → Request
  put_settings : SettingsInput → Request
  create_job : Text → CreateJobInput → Request
  get_job delete_job get_cues retry_job cancel_job : Text → Request
  download : Text → DownloadQuery → Request

-- `get` stands for GET and for HEAD, which the framework routes alike.
pub data Method : Type 0 where
  get post put delete other_method : Method

-- What the extractors of a handler would read from the query and from the body, and the id that the
-- store would draw.
pub record Input : Type 0 where
  pub dir : Option Text
  pub query : DownloadQuery
  pub settings : SettingsInput
  pub job : CreateJobInput
  pub new_id : Text

-- A path that is known has an answer for every method. Segments are not empty.
pub data Routed : Type 0 where
  handler : Request → Routed
  method_not_allowed no_route : Routed

unfoldable pub only_get : Request → Method → Routed
only_get r get = handler r
only_get r _ = method_not_allowed

unfoldable pub only_post : Request → Method → Routed
only_post r post = handler r
only_post r _ = method_not_allowed

unfoldable pub on_settings : SettingsInput → Method → Routed
on_settings input get = handler get_settings
on_settings input put = handler (put_settings input)
on_settings input _ = method_not_allowed

unfoldable pub on_jobs : Input → Method → Routed
on_jobs i get = handler list_jobs
on_jobs i post = handler (create_job i.new_id i.job)
on_jobs i _ = method_not_allowed

unfoldable pub on_job : Text → Method → Routed
on_job id get = handler (get_job id)
on_job id delete = handler (delete_job id)
on_job id _ = method_not_allowed

unfoldable pub route : Input → List Text → Method → Routed
route i (a ∷ []) m =
    if text_eq a (codes "languages")
    then only_get list_languages m
    else if text_eq a (codes "roots")
    then only_get list_roots m
    else if text_eq a (codes "library")
    then only_get (browse i.dir) m
    else if text_eq a (codes "settings")
    then on_settings i.settings m
    else if text_eq a (codes "jobs")
    then on_jobs i m
    else no_route
route i (a ∷ id ∷ []) m = if text_eq a (codes "jobs") then on_job id m else no_route
route i (a ∷ id ∷ b ∷ []) m =
    if not (text_eq a (codes "jobs"))
    then no_route
    else if text_eq b (codes "cues")
    then only_get (get_cues id) m
    else if text_eq b (codes "download")
    then only_get (download id i.query) m
    else if text_eq b (codes "retry")
    then only_post (retry_job id) m
    else if text_eq b (codes "cancel")
    then only_post (cancel_job id) m
    else no_route
route i _ m = no_route

module _ (p : Platform) (s : Site p) where
  unfoldable pub handle : Request → Db p → Answer p
  handle list_languages db = Settings.list_languages p s db
  handle list_roots db = Settings.list_roots p s db
  handle get_settings db = Settings.get_settings p s db
  handle list_jobs db = Jobs.list_jobs p s db
  handle (browse dir) db = Settings.browse p s dir db
  handle (put_settings input) db = Settings.put_settings p s input db
  handle (create_job id input) db = Jobs.create_job p s id input db
  handle (get_job id) db = Jobs.get_job p s id db
  handle (delete_job id) db = Jobs.delete_job p s id db
  handle (get_cues id) db = Jobs.get_cues p s id db
  handle (retry_job id) db = Jobs.retry_job p s id db
  handle (cancel_job id) db = Jobs.cancel_job p s id db
  handle (download id query) db = Download.download p s id query db
