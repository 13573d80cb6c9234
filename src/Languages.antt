-- ===== src/Languages.antt =====
-- backend/src/languages.rs: the target-language table and its lookup.
pub mod Find
use ryu_subtitles.Prelude.{ℕ, Option, none, some, List, [], ◌∷◌, Bool, if◌then◌else◌, String}
use ryu_subtitles.Text.{Text, codes, trim, text_eq, to_ascii_lowercase}

pub record Language : Type 0 where
  pub code : Text
  pub name : Text
  pub native : Text

abbrev language : String → String → String → Language
language code name native = record { code = codes code; name = codes name; native = codes native }

unfoldable pub languages : List Language
languages =
    language "en" "English" "English"
    ∷ language "es" "Spanish" "Español"
    ∷ language "fr" "French" "Français"
    ∷ language "de" "German" "Deutsch"
    ∷ language "it" "Italian" "Italiano"
    ∷ language "pt-BR" "Brazilian Portuguese" "Português (Brasil)"
    ∷ language "pt" "European Portuguese" "Português (Portugal)"
    ∷ language "nl" "Dutch" "Nederlands"
    ∷ language "pl" "Polish" "Polski"
    ∷ language "ru" "Russian" "Русский"
    ∷ language "uk" "Ukrainian" "Українська"
    ∷ language "tr" "Turkish" "Türkçe"
    ∷ record {
      code = codes "ar";
      name = codes "Arabic";
      native = 0x627 ∷ 0x644 ∷ 0x639 ∷ 0x631 ∷ 0x628 ∷ 0x64a ∷ 0x629 ∷ [];
    }
    ∷ record {
      code = codes "he";
      name = codes "Hebrew";
      native = 0x5e2 ∷ 0x5d1 ∷ 0x5e8 ∷ 0x5d9 ∷ 0x5ea ∷ [];
    }
    ∷ record {
      code = codes "fa";
      name = codes "Persian";
      native = 0x641 ∷ 0x627 ∷ 0x631 ∷ 0x633 ∷ 0x6cc ∷ [];
    }
    ∷ language "hi" "Hindi" "हिन्दी"
    ∷ language "bn" "Bengali" "বাংলা"
    ∷ language "ta" "Tamil" "தமிழ்"
    ∷ language "th" "Thai" "ไทย"
    ∷ language "vi" "Vietnamese" "Tiếng Việt"
    ∷ language "id" "Indonesian" "Bahasa Indonesia"
    ∷ language "ms" "Malay" "Bahasa Melayu"
    ∷ language "ja" "Japanese" "日本語"
    ∷ language "ko" "Korean" "한국어"
    ∷ language "zh-Hans" "Simplified Chinese" "简体中文"
    ∷ language "zh-Hant" "Traditional Chinese" "繁體中文"
    ∷ language "sv" "Swedish" "Svenska"
    ∷ language "no" "Norwegian" "Norsk"
    ∷ language "da" "Danish" "Dansk"
    ∷ language "fi" "Finnish" "Suomi"
    ∷ language "cs" "Czech" "Čeština"
    ∷ language "el" "Greek" "Ελληνικά"
    ∷ language "ro" "Romanian" "Română"
    ∷ language "hu" "Hungarian" "Magyar"
    ∷ []

-- `str::eq_ignore_ascii_case`.
unfoldable pub eq_ignore_ascii_case : Text → Text → Bool
eq_ignore_ascii_case s t = text_eq (to_ascii_lowercase s) (to_ascii_lowercase t)

-- `LANGUAGES.iter().find(…)` for a trimmed code.
unfoldable pub find_code : Text → List Language → Option Language
find_code code [] = none
find_code code (l ∷ ls) = if eq_ignore_ascii_case l.code code then some l else find_code code ls

unfoldable pub find : Text → Option Language
find code = find_code (trim code) languages

abbrev pub default_target : Text
default_target = codes "en"
