-- ===== src/Store/Model.antt =====
-- The data of backend/src/store.rs, and what the store uses of the platform.
use ryu_subtitles.Prelude.{
  ℕ, ◌^◌, Bool, true, false, ◌≡◌, refl, Option, List, [], if◌then◌else◌, ltb,
}
use ryu_subtitles.Text.{Text, codes, text_eq}
use ryu_subtitles.Cues.Model.{Cue, Layout, Format, srt}

pub data Status : Type 0 where
  queued transcribing translating completed failed canceled : Status

-- `Status::as_str`.
unfoldable pub as_str : Status → Text
as_str queued = codes "queued"
as_str transcribing = codes "transcribing"
as_str translating = codes "translating"
as_str completed = codes "completed"
as_str failed = codes "failed"
as_str canceled = codes "canceled"

-- `Status::parse`.
unfoldable pub parse_status : Text → Status
unfolding text_eq
parse_status value =
    if text_eq value (codes "transcribing")
    then transcribing
    else if text_eq value (codes "translating")
    then translating
    else if text_eq value (codes "completed")
    then completed
    else if text_eq value (codes "failed")
    then failed
    else if text_eq value (codes "canceled")
    then canceled
    else queued

unfoldable pub is_terminal : Status → Bool
is_terminal completed = true
is_terminal failed = true
is_terminal canceled = true
is_terminal _ = false

unfoldable pub layout_str : Layout → Text
layout_str Layout.translated = codes "translated"
layout_str Layout.source = codes "source"
layout_str Layout.bilingual = codes "bilingual"

-- `parse_layout` of store.rs.
unfoldable pub parse_layout : Text → Layout
unfolding text_eq
parse_layout value =
    if text_eq value (codes "source")
    then Layout.source
    else if text_eq value (codes "bilingual")
    then Layout.bilingual
    else Layout.translated

pub record Settings : Type 0 where
  pub target_language : Text
  pub format : Format
  pub layout : Layout
  pub engine : Text
  pub model : Text
  pub write_beside_source : Bool

abbrev pub default_settings : Settings
default_settings = record {
  target_language = codes "en";
  format = srt;
  layout = Layout.translated;
  engine = codes "whisper";
  model = [];
  write_beside_source = true;
}

-- The platform: `f64` and its `clamp`, the sealing of a value for a column and a row
-- (`ryu_seal`, `ryu_open`), and the JSON forms of the cues and of the settings. `none` is a failure.
pub record Platform : Type 1 where
  pub Real : Type 0
  pub real_zero : Real
  pub real_one : Real
  pub clamp : Real → Real → Real → Real
  pub Cell : Type 0
  pub writable : Bool
  pub seal : Text → Text → Text → Option Cell
  pub unseal : Text → Text → Cell → Option Text
  pub cues_to_json : List Cue → Option Text
  pub cues_from_json : Text → Option (List Cue)
  pub settings_to_json : Settings → Option Text
  pub settings_from_json : Text → Option Settings

pub record Job (p : Platform) : Type 0 where
  pub id : Text
  pub source_path : Text
  pub source_name : Text
  pub target_language : Text
  pub format : Format
  pub layout : Layout
  pub status : Status
  pub progress : p.Real
  pub stage : Text
  pub error : Option Text
  pub duration_ms : Option ℕ
  pub cue_count : ℕ
  pub translated_count : ℕ
  pub engine : Text
  pub model : Text
  pub output_path : Option Text
  pub created_at : ℕ
  pub updated_at : ℕ
  pub completed_at : Option ℕ

pub record NewJob : Type 0 where
  pub source_path : Text
  pub source_name : Text
  pub target_language : Text
  pub format : Format
  pub layout : Layout
  pub engine : Text
  pub model : Text

-- A row of the table `jobs`. The five sealed columns hold cells; `INTEGER` columns that are read
-- as unsigned hold their 64-bit pattern. Times are milliseconds since 1970.
pub record Row (p : Platform) : Type 0 where
  pub id : Text
  pub source_path : p.Cell
  pub source_name : p.Cell
  pub target_language : Text
  pub format : Text
  pub layout : Text
  pub status : Text
  pub progress : p.Real
  pub stage : Text
  pub error : Option p.Cell
  pub duration_ms : Option ℕ
  pub cue_count : ℕ
  pub translated_count : ℕ
  pub engine : Text
  pub model : Text
  pub output_path : Option p.Cell
  pub cues : p.Cell
  pub created_at : ℕ
  pub updated_at : ℕ
  pub completed_at : Option ℕ

-- The database: the rows of `jobs` in the order of their insertion, and the blob of `settings`.
pub record Db (p : Platform) : Type 0 where
  pub jobs : List (Row p)
  pub settings : Option Text

pub data StoreError : Type 0 where
  unsealable unreadable not_json duplicate_id : StoreError

-- `n as i64` read back by `.max(0) as u64`.
abbrev pub unsigned : ℕ → ℕ
unsigned n = if ltb n (2 ^ 63) then n else 0

-- A status that is stored is read back.
pub parse_status-as_str : (s : Status) → parse_status (as_str s) ≡ s
unfolding parse_status as_str
parse_status-as_str queued = refl
parse_status-as_str transcribing = refl
parse_status-as_str translating = refl
parse_status-as_str completed = refl
parse_status-as_str failed = refl
parse_status-as_str canceled = refl

pub parse_layout-layout_str : (l : Layout) → parse_layout (layout_str l) ≡ l
unfolding parse_layout layout_str
parse_layout-layout_str Layout.translated = refl
parse_layout-layout_str Layout.source = refl
parse_layout-layout_str Layout.bilingual = refl
