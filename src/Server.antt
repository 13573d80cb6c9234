-- ===== src/Server.antt =====
-- The shared-secret gate of backend/src/main.rs. The comparison of tokens is the crate
-- `ryu_sidecar_runtime`'s.
use ryu_subtitles.Prelude.{
  ◌≡◌, refl, Bool, true, false, Option, none, some, [], ◌∷◌, ◌==◌, if◌then◌else◌,
}
use ryu_subtitles.Text.{Text, codes, trim, is_empty}
use ryu_subtitles.Store.Model.{Platform, Db}
use ryu_subtitles.Api.Model.{Answer, Site, text_body}
use ryu_subtitles.Api.Routes.{Request, handle}

-- `str::strip_prefix`.
unfoldable pub strip_prefix : Text → Text → Option Text
strip_prefix [] t = some t
strip_prefix (c ∷ s) [] = none
strip_prefix (c ∷ s) (d ∷ t) = if c == d then strip_prefix s t else none

-- The bearer token of the header `Authorization`, where the header is there and is text.
unfoldable pub provided : Option Text → Option Text
provided none = none
provided (some header) = strip_prefix (codes "Bearer ") header

-- The token of the environment, trimmed; a blank one is none.
unfoldable pub expected_token : Option Text → Option Text
expected_token none = none
expected_token (some value) = if is_empty (trim value) then none else some (trim value)

module _ (p : Platform) (token_ok : Option Text → Option Text → Bool) where
  unfoldable pub require_token : Option Text → Option Text → (Db p → Answer p) → Db p → Answer p
  require_token header expected next db =
      if token_ok (provided header) expected then next db else record {
        response = record { status = 401; body = text_body (codes "unauthorized") };
        db = db;
        signals = [];
      }

  -- A request to a route of the app, behind the gate.
  unfoldable pub app_request : Site p → (variable header : Option Text) → Request → Db p → Answer p
  app_request s variable header r db =
      require_token header (expected_token variable) (handle p s r) db

  blank_is_none : (value : Text) → is_empty (trim value) ≡ true → expected_token (some value) ≡ none
  unfolding expected_token
  blank_is_none value h = rw h refl

  -- A server that was started with a blank token rejects every request and does nothing, whatever the
  -- request brings, where the comparison rejects everything without an expected token.
  pub app_request-rejects :
      (closed : (given : Option Text) → token_ok given none ≡ false) (s : Site p) (value : Text)
      (header : Option Text) (r : Request) (db : Db p)
      → is_empty (trim value) ≡ true
      → ((app_request s (some value) header r db).response.status ≡ 401)
        × ((app_request s (some value) header r db).db ≡ db)
        × ((app_request s (some value) header r db).signals ≡ [])
  unfolding app_request require_token
  app_request-rejects closed s value header r db blank =
      rw (blank_is_none value blank) (rw (closed (provided header)) (refl, refl, refl))

  -- A request gets past the gate with the token of the environment behind `Bearer `, where the
  -- comparison accepts equal tokens.
  app_request-passes :
      (same : (t : Text) → is_empty t ≡ false → token_ok (some t) (some t) ≡ true) (s : Site p)
      (value header : Text) (r : Request) (db : Db p)
      → is_empty (trim value) ≡ false
      → strip_prefix (codes "Bearer ") header ≡ some (trim value)
      → app_request s (some value) (some header) r db ≡ handle p s r db
  unfolding app_request require_token expected_token provided
  app_request-passes same s value header r db full h =
      rw (full, h) (rw (same (trim value) full) refl)
