-- ===== src/Api/Saved.antt =====
-- `put_settings` and `get_settings` of backend/src/api.rs together.
use ryu_subtitles.Prelude.{
  ℕ, ◌≡◌, refl, ap, subst, ◌∙◌, ◌≤◌, Option, none, some, inl, inr, arith, ok, err, ok-injective,
  Option-cases,
}
use ryu_subtitles.Text.{Text}
use ryu_subtitles.Languages.{find}
use ryu_subtitles.Store.Model.{Platform, Db, Settings}
use ryu_subtitles.Store.Jobs as Store
use ryu_subtitles.Store.Queue
use ryu_subtitles.Api.Model.{
  Response, Answer, Site, SettingsInput, settings_body, success, answered, reply, or_500,
  chosen_language, chosen_format, chosen_layout,
}
use ryu_subtitles.Api.Settings
use ryu_subtitles.Api.Early.{bind_holds, or_500_ok, or_500_err}
use ryu_subtitles.Api.Created.{bind_failed, ok_or_400, chosen_format_400, chosen_layout_400}

-- The JSON of settings is read back.
pub record Parses (p : Platform) : Type 0 where
  pub parses :
      (settings : Settings) (blob : Text)
      → p.settings_to_json settings ≡ some blob
      → p.settings_from_json blob ≡ some settings

module _ (p : Platform) (law : Parses p) where
  settings_of :
      (db : Db p) (blob : Text) (settings : Settings)
      → db.settings ≡ some blob
      → p.settings_from_json blob ≡ some settings
      → Queue.settings p db ≡ settings
  unfolding Queue.settings
  settings_of db blob settings h e = ground arith

  settings-save_settings :
      (settings : Settings) (db out : Db p)
      → Store.save_settings p settings db ≡ ok out
      → Queue.settings p out ≡ settings
  unfolding Store.save_settings
  settings-save_settings settings db out h = elim (Option-cases (p.settings_to_json settings)) [
    | inl e ↦ cc (rw e at h)
    | inr (blob, e) ↦
        subst (λ (d : Db p). Queue.settings p d ≡ settings) (ok-injective _ out (rw e at h))
          (settings_of (record db { settings = some blob }) blob settings refl
            (law.parses settings blob e))
  ]

  module _ (s : Site p) (quiet : (k : ℕ) (db : Db p) → s.meddle k db ≡ db) where
    record IsShown (a : Answer p) : Type 0 where
      is_shown : a.response.status ≡ 200 → (Settings.get_settings p s a.db).response ≡ a.response

    refused : (db : Db p) (r : Response p) → 400 ≤ r.status → IsShown (reply p r db)
    unfolding reply
    refused db r h = record { is_shown = λ q. absurd (omega arith) }

    save_input-IsShown :
        (settings : Settings) (db : Db p) → IsShown (Settings.save_input p s settings db)
    unfolding Settings.save_input answered Settings.get_settings reply
    save_input-IsShown settings db =
        bind_holds p IsShown db (or_500 p s (Store.save_settings p settings db)) _
          (λ out e. record {
            is_shown = λ q.
                ap (λ x. success p (settings_body x))
                  (ap (Queue.settings p) (quiet 0 out)
                    ∙ settings-save_settings settings db out (or_500_ok p s _ out e));
          })
          (λ r e. refused db r (omega (arith, or_500_err p s _ r e)))

    put_language_400 :
        (o : Option Text) (settings : Settings) (r : Response p)
        → Settings.put_language p s o settings ≡ err r
        → r.status ≡ 400
    unfolding Settings.put_language chosen_language
    put_language_400 none settings r h = cc
    put_language_400 (some code) settings r h =
        elim (bind_failed p (chosen_language p code) _ r h) [
          | inl e ↦ ok_or_400 p (find code) _ r e
          | inr (l, _, f) ↦ cc
        ]

    apply_input_400 :
        (input : SettingsInput) (settings : Settings) (r : Response p)
        → Settings.apply_input p s input settings ≡ err r
        → r.status ≡ 400
    unfolding Settings.apply_input
    apply_input_400 input settings r h =
        elim (bind_failed p (Settings.put_language p s input.target_language settings) _ r h) [
          | inl e ↦ put_language_400 input.target_language settings r e
          | inr (first, _, h₁) ↦
              elim (bind_failed p (chosen_format p input.format settings.format) _ r h₁) [
                | inl e ↦ chosen_format_400 p input.format settings.format r e
                | inr (f, _, h₂) ↦
                    elim (bind_failed p (chosen_layout p input.layout settings.layout) _ r h₂) [
                      | inl e ↦ chosen_layout_400 p input.layout settings.layout r e
                      | inr (l, _, h₃) ↦ cc
                    ]
              ]
        ]

    put_settings-IsShown :
        (input : SettingsInput) (db : Db p) → IsShown (Settings.put_settings p s input db)
    unfolding Settings.put_settings
    put_settings-IsShown input db =
        let db₀ = s.meddle 0 db in
        bind_holds p IsShown db₀ (Settings.apply_input p s input (Queue.settings p db₀)) _
          (λ settings e. unfold answered in save_input-IsShown settings (s.meddle 1 db₀))
          (λ r e. refused db₀ r (omega (arith, apply_input_400 input (Queue.settings p db₀) r e)))

    -- After a change of the settings that is answered with 200, a request for the settings is answered
    -- with what that answer showed, where no other task works on the database meanwhile and the JSON
    -- of settings is read back.
    pub get_settings-put_settings :
        (input : SettingsInput) (db : Db p)
        → (Settings.put_settings p s input db).response.status ≡ 200
        → (Settings.get_settings p s (Settings.put_settings p s input db).db).response
          ≡ (Settings.put_settings p s input db).response
    get_settings-put_settings input db h = (put_settings-IsShown input db).is_shown h
