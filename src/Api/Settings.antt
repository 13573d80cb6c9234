-- ===== src/Api/Settings.antt =====
-- The handlers of backend/src/api.rs that do not concern jobs.
use ryu_subtitles.Prelude.{Bool, Option, none, some, List, Result, ok, err, ◌>>=◌, if◌then◌else◌}
use ryu_subtitles.Text.{Text, trim, is_empty}
use ryu_subtitles.Languages.{languages}
use ryu_subtitles.Library.{Entry, PathError, roots, list_dir}
use ryu_subtitles.Store.Model.{Platform, Db, Settings}
use ryu_subtitles.Store.Jobs as Store
use ryu_subtitles.Store.Queue
use ryu_subtitles.Api.Model.{
  Response, Answer, Site, SettingsInput, languages_body, roots_body, no_dir_body, entries_body,
  settings_body, success, path_error, chosen_format, chosen_layout, chosen_language, answered,
  reply, or_500,
}

module _ (p : Platform) (s : Site p) where
  unfoldable pub list_languages : Db p → Answer p
  list_languages db = reply p (success p (languages_body languages)) db

  unfoldable pub list_roots : Db p → Answer p
  list_roots db = reply p (success p (roots_body (roots s.files))) db

  unfoldable pub entries_or_error : Result PathError (List Entry) → Response p
  entries_or_error (ok entries) = success p (entries_body entries)
  entries_or_error (err e) = path_error p e

  unfoldable pub browse : Option Text → Db p → Answer p
  browse none db = reply p (success p (no_dir_body (roots s.files))) db
  browse (some dir) db =
      let t = trim dir in
      if is_empty t
      then reply p (success p (no_dir_body (roots s.files))) db
      else reply p (entries_or_error (list_dir s.files t)) db

  unfoldable pub get_settings : Db p → Answer p
  get_settings db =
      let db₀ = s.meddle 0 db in reply p (success p (settings_body (Queue.settings p db₀))) db₀

  -- The fields that fail where their value is not known.
  unfoldable pub put_language : Option Text → Settings → Result (Response p) Settings
  put_language none settings = ok settings
  put_language (some code) settings = do
    language ← chosen_language p code
    ok (record settings { target_language = language.code })

  -- A blank engine keeps the engine.
  unfoldable pub put_engine : Option Text → Settings → Settings
  put_engine none settings = settings
  put_engine (some engine) settings =
      if is_empty (trim engine) then settings else record settings { engine = trim engine }

  unfoldable pub put_model : Option Text → Settings → Settings
  put_model none settings = settings
  put_model (some model) settings = record settings { model = trim model }

  unfoldable pub put_beside : Option Bool → Settings → Settings
  put_beside none settings = settings
  put_beside (some beside) settings = record settings { write_beside_source = beside }

  unfoldable pub apply_input : SettingsInput → Settings → Result (Response p) Settings
  apply_input input settings = do
    first ← put_language input.target_language settings
    format ← chosen_format p input.format settings.format
    layout ← chosen_layout p input.layout settings.layout
    ok (
        put_beside input.write_beside_source (
          put_model input.model
            (put_engine input.engine (record first { format = format; layout = layout }))))

  unfoldable pub save_input : Settings → Db p → Answer p
  save_input settings db = answered p db (do
    db' ← or_500 p s (Store.save_settings p settings db)
    ok (reply p (success p (settings_body settings)) db'))

  unfoldable pub put_settings : SettingsInput → Db p → Answer p
  put_settings input db =
      let db₀ = s.meddle 0 db in
      answered p db₀ (do
        settings ← apply_input input (Queue.settings p db₀)
        ok (save_input settings (s.meddle 1 db₀)))
