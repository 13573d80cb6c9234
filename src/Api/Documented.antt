-- ===== src/Api/Documented.antt =====
-- The `#[utoipa::path]` lines of backend/src/api.rs, below the mount, and the router.
use ryu_subtitles.Prelude.{
  Bool, true, false, subst, ◌↔◌, ◌≡◌, refl, sym, ap, List, [], ◌∷◌, arith, not, if◌then◌else◌,
}
use ryu_subtitles.Text.{Text, codes, text_eq}
use ryu_subtitles.Text.Equal.{text_eq→eq}
use ryu_subtitles.Api.Routes.{
  Request, list_languages, list_roots, get_settings, list_jobs, browse, put_settings, create_job,
  get_job, delete_job, get_cues, retry_job, cancel_job, download, Method, get, post, put, delete,
  other_method, Input, Routed, handler, route, only_get, only_post, on_settings, on_jobs, on_job,
  no_route, method_not_allowed,
}

-- The method and the path of each operation in its attribute.
abbrev pub list_languages_doc : Method × List Text
list_languages_doc = (get, codes "languages" ∷ [])

abbrev pub list_roots_doc : Method × List Text
list_roots_doc = (get, codes "roots" ∷ [])

abbrev pub browse_doc : Method × List Text
browse_doc = (get, codes "library" ∷ [])

abbrev pub get_settings_doc : Method × List Text
get_settings_doc = (get, codes "settings" ∷ [])

abbrev pub put_settings_doc : Method × List Text
put_settings_doc = (put, codes "settings" ∷ [])

abbrev pub list_jobs_doc : Method × List Text
list_jobs_doc = (get, codes "jobs" ∷ [])

abbrev pub create_job_doc : Method × List Text
create_job_doc = (post, codes "jobs" ∷ [])

abbrev pub get_job_doc : Text → Method × List Text
get_job_doc id = (get, codes "jobs" ∷ id ∷ [])

abbrev pub get_cues_doc : Text → Method × List Text
get_cues_doc id = (get, codes "jobs" ∷ id ∷ codes "cues" ∷ [])

abbrev pub download_doc : Text → Method × List Text
download_doc id = (get, codes "jobs" ∷ id ∷ codes "download" ∷ [])

abbrev pub retry_job_doc : Text → Method × List Text
retry_job_doc id = (post, codes "jobs" ∷ id ∷ codes "retry" ∷ [])

abbrev pub cancel_job_doc : Text → Method × List Text
cancel_job_doc id = (post, codes "jobs" ∷ id ∷ codes "cancel" ∷ [])

abbrev pub delete_job_doc : Text → Method × List Text
delete_job_doc id = (delete, codes "jobs" ∷ id ∷ [])

-- The operations of the document.
unfoldable pub documented : Request → Method × List Text
documented list_languages = list_languages_doc
documented list_roots = list_roots_doc
documented (browse dir) = browse_doc
documented get_settings = get_settings_doc
documented (put_settings input) = put_settings_doc
documented list_jobs = list_jobs_doc
documented (create_job id input) = create_job_doc
documented (get_job id) = get_job_doc id
documented (get_cues id) = get_cues_doc id
documented (download id query) = download_doc id
documented (retry_job id) = retry_job_doc id
documented (cancel_job id) = cancel_job_doc id
documented (delete_job id) = delete_job_doc id

-- The input holds what the handler of the request reads from the query or the body.
abbrev pub Reads : Input → Request → Type 0
Reads i (browse dir) = dir ≡ i.dir
Reads i (put_settings input) = input ≡ i.settings
Reads i (create_job id input) = (id ≡ i.new_id) × (input ≡ i.job)
Reads i (download id query) = query ≡ i.query
Reads i _ = Unit

routed_there :
    (i : Input) (r : Request) → Reads i r → route i (documented r).1 (documented r).0 ≡ handler r
unfolding documented route only_get only_post on_settings on_jobs on_job text_eq
routed_there i list_languages h = refl
routed_there i list_roots h = refl
routed_there i get_settings h = refl
routed_there i list_jobs h = refl
routed_there i (browse dir) h = ap (λ d. handler (browse d)) (sym h)
routed_there i (put_settings input) h = ap (λ d. handler (put_settings d)) (sym h)
routed_there i (create_job id input) (h, k) = rw (h, k) refl
routed_there i (get_job id) h = refl
routed_there i (delete_job id) h = refl
routed_there i (get_cues id) h = refl
routed_there i (retry_job id) h = refl
routed_there i (cancel_job id) h = refl
routed_there i (download id query) h = ap (λ q. handler (download id q)) (sym h)

-- A request that the router took to a handler is the documented one.
record Matches (i : Input) (path : List Text) (m : Method) (r : Request) : Type 0 where
  there : documented r ≡ (m, path)
  reads : Reads i r

-- What a routing leads to, if it leads to a handler, matches.
record Sound (i : Input) (path : List Text) (m : Method) (x : Routed) : Type 0 where
  sound : (r : Request) → x ≡ handler r → Matches i path m r

handler_injective : (r q : Request) → handler r ≡ handler q → r ≡ q
handler_injective r q e = cc

to_handler :
    (i : Input) (path : List Text) (m : Method) (r : Request)
    → documented r ≡ (m, path)
    → Reads i r
    → Sound i path m (handler r)
to_handler i path m r h k = record {
  sound =
      λ q e. subst (Matches i path m) (handler_injective r q e) (record { there = h; reads = k });
}

refused : (i : Input) (path : List Text) (m : Method) → Sound i path m method_not_allowed
refused i path m = record { sound = λ q e. cc }

nowhere : (i : Input) (path : List Text) (m : Method) → Sound i path m no_route
nowhere i path m = record { sound = λ q e. cc }

only_get-Sound :
    (i : Input) (path : List Text) (m : Method) (r : Request)
    → documented r ≡ (get, path)
    → Reads i r
    → Sound i path m (only_get r m)
unfolding only_get
only_get-Sound i path get r h k = to_handler i path get r h k
only_get-Sound i path post r h k = refused i path post
only_get-Sound i path put r h k = refused i path put
only_get-Sound i path delete r h k = refused i path delete
only_get-Sound i path other_method r h k = refused i path other_method

only_post-Sound :
    (i : Input) (path : List Text) (m : Method) (r : Request)
    → documented r ≡ (post, path)
    → Reads i r
    → Sound i path m (only_post r m)
unfolding only_post
only_post-Sound i path post r h k = to_handler i path post r h k
only_post-Sound i path get r h k = refused i path get
only_post-Sound i path put r h k = refused i path put
only_post-Sound i path delete r h k = refused i path delete
only_post-Sound i path other_method r h k = refused i path other_method

on_settings-Sound :
    (i : Input) (m : Method) → Sound i (codes "settings" ∷ []) m (on_settings i.settings m)
unfolding on_settings documented
on_settings-Sound i get = to_handler i _ get get_settings refl tt
on_settings-Sound i put = to_handler i _ put (put_settings i.settings) refl refl
on_settings-Sound i post = refused i _ post
on_settings-Sound i delete = refused i _ delete
on_settings-Sound i other_method = refused i _ other_method

on_jobs-Sound : (i : Input) (m : Method) → Sound i (codes "jobs" ∷ []) m (on_jobs i m)
unfolding on_jobs documented
on_jobs-Sound i get = to_handler i _ get list_jobs refl tt
on_jobs-Sound i post = to_handler i _ post (create_job i.new_id i.job) refl (refl, refl)
on_jobs-Sound i put = refused i _ put
on_jobs-Sound i delete = refused i _ delete
on_jobs-Sound i other_method = refused i _ other_method

on_job-Sound :
    (i : Input) (id : Text) (m : Method) → Sound i (codes "jobs" ∷ id ∷ []) m (on_job id m)
unfolding on_job documented
on_job-Sound i id get = to_handler i _ get (get_job id) refl tt
on_job-Sound i id delete = to_handler i _ delete (delete_job id) refl tt
on_job-Sound i id put = refused i _ put
on_job-Sound i id post = refused i _ post
on_job-Sound i id other_method = refused i _ other_method

branch :
    (i : Input) (path : List Text) (m : Method) (b : Bool) (x y : Routed)
    → (b ≡ true → Sound i path m x)
    → (b ≡ false → Sound i path m y)
    → Sound i path m (if b then x else y)
branch i path m true x y h k = h refl
branch i path m false x y h k = k refl

-- A segment that equals a word is that word.
at_word :
    (i : Input) (rest : List Text) (m : Method) (a word : Text) (x : Routed)
    → text_eq a word ≡ true
    → Sound i (word ∷ rest) m x
    → Sound i (a ∷ rest) m x
at_word i rest m a word x e h = subst (λ t. Sound i (t ∷ rest) m x) (sym (text_eq→eq a word e)) h

one_segment : (i : Input) (a : Text) (m : Method) → Sound i (a ∷ []) m (route i (a ∷ []) m)
unfolding route documented
one_segment i a m =
    branch i _ m _ _ _
      (λ e. at_word i [] m a (codes "languages") _ e (only_get-Sound i _ m list_languages refl tt))
      (λ _.
        branch i _ m _ _ _
          (λ e. at_word i [] m a (codes "roots") _ e (only_get-Sound i _ m list_roots refl tt))
          (λ _.
            branch i _ m _ _ _
              (λ e.
                at_word i [] m a (codes "library") _ e
                  (only_get-Sound i _ m (browse i.dir) refl refl))
              (λ _.
                branch i _ m _ _ _
                  (λ e. at_word i [] m a (codes "settings") _ e (on_settings-Sound i m))
                  (λ _.
                    branch i _ m _ _ _
                      (λ e. at_word i [] m a (codes "jobs") _ e (on_jobs-Sound i m))
                      (λ _. nowhere i _ m)))))

-- The third segment, behind `jobs` and an id.
at_last :
    (i : Input) (id : Text) (m : Method) (b word : Text) (x : Routed)
    → text_eq b word ≡ true
    → Sound i (codes "jobs" ∷ id ∷ word ∷ []) m x
    → Sound i (codes "jobs" ∷ id ∷ b ∷ []) m x
at_last i id m b word x e h =
    subst (λ t. Sound i (codes "jobs" ∷ id ∷ t ∷ []) m x) (sym (text_eq→eq b word e)) h

from_not : (b : Bool) → not b ≡ false → b ≡ true
from_not b h = ground arith

three_segments :
    (i : Input) (a id b : Text) (m : Method)
    → Sound i (a ∷ id ∷ b ∷ []) m (route i (a ∷ id ∷ b ∷ []) m)
unfolding route documented
three_segments i a id b m =
    branch i _ m _ _ _ (λ _. nowhere i _ m)
      (λ e. at_word i (id ∷ b ∷ []) m a (codes "jobs") _ (from_not _ e) (
        branch i _ m _ _ _
          (λ e. at_last i id m b (codes "cues") _ e (only_get-Sound i _ m (get_cues id) refl tt))
          (λ _.
            branch i _ m _ _ _
              (λ e.
                at_last i id m b (codes "download") _ e
                  (only_get-Sound i _ m (download id i.query) refl refl))
              (λ _.
                branch i _ m _ _ _
                  (λ e.
                    at_last i id m b (codes "retry") _ e
                      (only_post-Sound i _ m (retry_job id) refl tt))
                  (λ _.
                    branch i _ m _ _ _
                      (λ e.
                        at_last i id m b (codes "cancel") _ e
                          (only_post-Sound i _ m (cancel_job id) refl tt))
                      (λ _. nowhere i _ m))))))

route-Sound : (i : Input) (path : List Text) (m : Method) → Sound i path m (route i path m)
unfolding route
route-Sound i [] m = nowhere i [] m
route-Sound i (a ∷ []) m = one_segment i a m
route-Sound i (a ∷ id ∷ []) m =
    branch i _ m _ _ _ (λ e. at_word i (id ∷ []) m a (codes "jobs") _ e (on_job-Sound i id m))
      (λ _. nowhere i _ m)
route-Sound i (a ∷ id ∷ b ∷ []) m = three_segments i a id b m
route-Sound i (a ∷ id ∷ b ∷ c ∷ rest) m = nowhere i _ m

-- The router and the document agree: a method and a path lead to the handler of an operation if and
-- only if the document gives the operation that method and that path.
pub route-documented :
    (i : Input) (path : List Text) (m : Method) (r : Request)
    → (route i path m ≡ handler r) ↔ ((documented r ≡ (m, path)) × Reads i r)
route-documented i path m r = (
  λ e. let found = (route-Sound i path m).sound r e in (found.there, found.reads),
  λ h. subst (λ d. route i d.1 d.0 ≡ handler r) h.0 (routed_there i r h.1),
)
