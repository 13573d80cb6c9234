-- ===== src/Tests/Saved.antt =====
-- A change of the settings at a concrete input, with JSON for the settings that differ from the
-- defaults in their model only.
use ryu_subtitles.Prelude.{
  ◌≡◌, refl, sym, ap, Bool, true, ◌&&◌, Option, none, some, [], arith, if◌then◌else◌, Bool-cases,
  inl, inr,
}
use ryu_subtitles.Text
use ryu_subtitles.Text.{Text, codes, text_eq}
use ryu_subtitles.Text.Equal.{text_eq→eq}
use ryu_subtitles.Cues.Model.{Format, Layout, srt}
use ryu_subtitles.Store.Model.{Platform, Db, Settings, default_settings}
use ryu_subtitles.Store.Jobs as Store
use ryu_subtitles.Store.Queue
use ryu_subtitles.Api.Model
use ryu_subtitles.Api.Model.{Site, SettingsInput}
use ryu_subtitles.Api.Settings
use ryu_subtitles.Api.Download.{same_format, same_layout}
use ryu_subtitles.Api.Remember.{same_format-eq, same_layout-eq}
use ryu_subtitles.Api.Saved.{Parses, get_settings-put_settings}
use ryu_subtitles.Tests.Store.{plain}
use ryu_subtitles.Tests.Library.{disk}

abbrev is_usual : Settings → Bool
is_usual s =
    text_eq s.target_language (codes "en")
    && text_eq s.engine (codes "whisper")
    && same_format s.format srt
    && same_layout s.layout Layout.translated
    && s.write_beside_source

abbrev json_of : Settings → Option Text
json_of s = if is_usual s then some s.model else none

abbrev usual : Text → Settings
usual model = record default_settings { model = model }

abbrev written : Platform
written = record plain {
  settings_to_json = json_of;
  settings_from_json = λ blob. some (usual blob);
}

both : (a b : Bool) → a && b ≡ true → (a ≡ true) × (b ≡ true)
both a b h = ground arith

same_settings :
    (language engine model : Text) (format : Format) (layout : Layout) (beside : Bool)
    → language ≡ codes "en"
    → engine ≡ codes "whisper"
    → format ≡ srt
    → layout ≡ Layout.translated
    → beside ≡ true
    → ◌≡◌ {A = Settings} (usual model) (record {
      target_language = language;
      format = format;
      layout = layout;
      engine = engine;
      model = model;
      write_beside_source = beside;
    })
same_settings language engine model format layout beside a b c d e = rw (a, b, c, d, e) refl

usual_settings : (s : Settings) → is_usual s ≡ true → usual s.model ≡ s
usual_settings s h =
    let (h₁, e) = both _ s.write_beside_source h in
    let (h₂, d) = both _ (same_layout s.layout Layout.translated) h₁ in
    let (h₃, c) = both _ (same_format s.format srt) h₂ in
    let (a, b) = both _ (text_eq s.engine (codes "whisper")) h₃ in
    same_settings s.target_language s.engine s.model s.format s.layout s.write_beside_source
      (text_eq→eq s.target_language (codes "en") a) (text_eq→eq s.engine (codes "whisper") b)
      (same_format-eq s.format srt c) (same_layout-eq s.layout Layout.translated d) e

written-Parses : Parses written
written-Parses = record {
  parses = λ s blob h. elim (Bool-cases (is_usual s)) [
    | inr e ↦ cc (rw e at h)
    | inl e ↦
        let same : s.model ≡ blob = cc (rw e at h) in ap some (rw (sym same) (usual_settings s e))
  ];
}

abbrev site : Site written
site = record {
  files = disk;
  data_dir = codes "/r/s";
  file_name = λ path. some (codes "a.mp4");
  store_message = λ e. codes "database";
  meddle = λ k db. db;
  now = λ k. k;
}

abbrev db : Db written
db = record { jobs = []; settings = none }

abbrev new_model : SettingsInput
new_model = record {
  target_language = none;
  format = none;
  layout = none;
  engine = none;
  model = some (codes " local ");
  write_beside_source = none;
}

get_settings-put_settings_example :
    (Settings.get_settings written site
      (Settings.put_settings written site new_model db).db).response
    ≡ (Settings.put_settings written site new_model db).response
unfolding Settings.put_settings Settings.apply_input Settings.put_language Settings.put_engine
    Settings.put_model Settings.put_beside Settings.save_input Model.answered Model.reply
    Model.or_500 Model.chosen_format Model.chosen_layout Store.save_settings Queue.settings
    Text.text_eq same_format same_layout Text.trim Text.trim_start Text.trim_end Text.keep_end
    Text.is_whitespace
get_settings-put_settings_example =
    get_settings-put_settings written written-Parses site (λ k db. refl) new_model db refl
