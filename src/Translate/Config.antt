-- ===== src/Translate/Config.antt =====
-- `GatewayConfig` and the system prompt of backend/src/translate.rs. The process environment is a
-- parameter.
use ryu_subtitles.Prelude.{ℕ, Option, none, some, [], ◌∷◌, ◌++◌, ◌==◌, if◌then◌else◌}
use ryu_subtitles.Text.{Text, codes, trim, is_empty}
use ryu_subtitles.Languages.{Language}
use ryu_subtitles.Translate.Reply.{marker}

pub record GatewayConfig : Type 0 where
  pub url : Text
  pub token : Option Text
  pub model : Text

abbrev pub default_gateway_url : Text
default_gateway_url = codes "http://127.0.0.1:7981"

abbrev pub default_model : Text
default_model = codes "gemma-4-E2B-it-Q4_K_M"

unfoldable pub push_unless_slash : ℕ → Text → Text
push_unless_slash c [] = if c == b'/' then [] else c ∷ []
push_unless_slash c (d ∷ s) = c ∷ d ∷ s

-- `trim_end_matches('/')`.
unfoldable pub trim_end_slashes : Text → Text
trim_end_slashes [] = []
trim_end_slashes (c ∷ s) = push_unless_slash c (trim_end_slashes s)

-- `filter(|s| !s.is_empty())`.
abbrev pub nonempty : Text → Option Text
nonempty s = if is_empty s then none else some s

abbrev pub or_default : Option Text → Text → Text
or_default (some s) d = s
or_default none d = d

abbrev pub trimmed_var : Option Text → Option Text
trimmed_var none = none
trimmed_var (some s) = nonempty (trim s)

unfoldable pub gateway_url : (Text → Option Text) → Text
gateway_url env = elim (env (codes "RYU_GATEWAY_URL")) [
  | none ↦ default_gateway_url
  | some s ↦ or_default (nonempty (trim_end_slashes (trim s))) default_gateway_url
]

unfoldable pub from_env : (Text → Option Text) → Option Text → GatewayConfig
from_env env model = record {
  url = gateway_url env;
  token = trimmed_var (env (codes "RYU_GATEWAY_TOKEN"));
  model = or_default (trimmed_var model) default_model;
}

unfoldable pub system_prompt : Language → Text
system_prompt target =
    codes "You translate film and video subtitles into "
    ++ target.name
    ++ codes " ("
    ++ target.native
    ++ codes ").\n"
    ++ codes "You are given numbered subtitle lines, one per line, in the form `N"
    ++ marker ∷ codes " text`.\nRules:\n"
    ++ codes "- Reply with exactly one line per input line, in the same `N"
    ++ marker ∷ codes " text` form, using the SAME numbers you were given.\n"
    ++ codes
        "- Never merge two input lines into one, never split one into two, never omit one, never add one.\n"
    ++ codes
        "- Translate only the text after the marker. Keep proper nouns, numbers and on-screen names as they are.\n"
    ++ codes
        "- These lines are consecutive dialogue from one video, so a line may be a sentence fragment: translate it as a fragment, do not complete it.\n"
    ++ codes "- Match the register of the original — subtitles are spoken language, not prose.\n"
    ++ codes "- Output nothing but the numbered lines: no preamble, no notes, no code fences."
