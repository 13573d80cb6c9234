-- ===== src/Api/Filename.antt =====
-- `download_filename` of backend/src/api.rs on the jobs that `create_job` makes.
use ryu_subtitles.Prelude.{
  ◌≡◌, ◌≢◌, ◌⊎◌, ◌≤◌, ◌<◌, ℕ, All_mono, refl, sym, ap, subst, ◌∙◌, inl, inr, Bool, true, ◌&&◌, List,
  [], ◌∷◌, ◌++◌, arith, All, All-append, retain, retain-All,
}
use ryu_subtitles.Text.{Text, codes}
use ryu_subtitles.Cues.Model.{Format, srt, vtt, extension}
use ryu_subtitles.Languages.{Language, languages}
use ryu_subtitles.Languages.Find.{IsEntry}
use ryu_subtitles.Library.{Files, or_else, lossy}
use ryu_subtitles.Store.Model.{Platform, Job, Db}
use ryu_subtitles.Store.Jobs.Content.{Opens}
use ryu_subtitles.Api.Model.{Body, Site, CreateJobInput, job_body, decorate}
use ryu_subtitles.Api.Jobs
use ryu_subtitles.Api.Download.{is_control, is_header_safe, download_filename}
use ryu_subtitles.Api.Created.{create_job-IsCreated}

-- A character that may stand between the quotes of the header: it is not a control character (below
-- 0x20, or from 0x7f to 0x9f), not the quote 0x22 and not the backslash 0x5c.
pub record IsQuotable (c : ℕ) : Type 0 where
  pub printed : 0x20 ≤ c
  pub shown : (c < 0x7f) ⊎ (0x9f < c)
  pub quote : c ≢ 0x22
  pub backslash : c ≢ 0x5c

abbrev pub IsSafe : Text → Type 0
IsSafe t = All IsQuotable t

quotable : (c : ℕ) → is_header_safe c ≡ true → IsQuotable c
unfolding is_header_safe is_control
quotable c h = record {
  printed = ground arith;
  shown = ground arith;
  quote = ground arith;
  backslash = ground arith;
}

safe_text : Text → Bool
safe_text [] = true
safe_text (c ∷ t) = is_header_safe c && safe_text t

safe_text-IsSafe : (t : Text) → safe_text t ≡ true → IsSafe t
unfolding safe_text
safe_text-IsSafe [] h = tt
safe_text-IsSafe (c ∷ t) h = (quotable c (ground arith), safe_text-IsSafe t (ground arith))

safe_codes : List Language → Bool
safe_codes [] = true
safe_codes (l ∷ ls) = safe_text l.code && safe_codes ls

languages_are_safe : safe_codes languages ≡ true
unfolding safe_codes safe_text languages is_header_safe is_control
languages_are_safe = refl

entry-IsSafe :
    (code : Text) (l : Language) (ls : List Language)
    → safe_codes ls ≡ true
    → IsEntry code l ls
    → IsSafe l.code
unfolding safe_codes
entry-IsSafe code l [] h e = absurd e
entry-IsSafe code l (m ∷ ms) h (inl (same, _)) =
    subst (λ x. IsSafe x.code) (sym same) (safe_text-IsSafe m.code (ground arith))
entry-IsSafe code l (m ∷ ms) h (inr e) = entry-IsSafe code l ms (ground arith) e

extension-IsSafe : (format : Format) → IsSafe (extension format)
unfolding extension safe_text is_header_safe is_control
extension-IsSafe srt = safe_text-IsSafe (extension srt) refl
extension-IsSafe vtt = safe_text-IsSafe (extension vtt) refl

dot-IsSafe : IsSafe (codes ".")
unfolding safe_text is_header_safe is_control
dot-IsSafe = safe_text-IsSafe (codes ".") refl

joined-IsSafe : (t u : Text) → IsSafe t → IsSafe u → IsSafe (t ++ u)
joined-IsSafe t u h k = All-append IsQuotable t u h k

module _ (p : Platform) where
  filename-IsSafe :
      (files : Files) (job : Job p) (format : Format)
      → IsSafe job.target_language
      → IsSafe (download_filename files job format)
  unfolding download_filename
  filename-IsSafe files job format h =
      let stem =
        retain is_header_safe
          (or_else (lossy files (files.file_stem job.source_name)) (codes "subtitles")) in
      let named =
        joined-IsSafe stem (codes ".") (All_mono quotable stem (retain-All is_header_safe _))
          dot-IsSafe in
      let tagged = joined-IsSafe _ job.target_language named h in
      joined-IsSafe _ (extension format) (joined-IsSafe _ (codes ".") tagged dot-IsSafe)
        (extension-IsSafe format)

  abbrev shown_job : Body p → Job p → Job p
  shown_job (job_body v) j = v.job
  shown_job _ j = j

  -- The file name of a job that a request created, whatever the video is called, cannot leave the
  -- quoted string of the header: no character of it is a control character, the quote 0x22 or the
  -- backslash 0x5c.
  pub created_filename-IsSafe :
      (s : Site p) (law : Opens p) (id : Text) (input : CreateJobInput) (db : Db p) (j : Job p)
      (format : Format)
      → (Jobs.create_job p s id input db).response.status ≡ 201
      → (Jobs.create_job p s id input db).response.body ≡ job_body (decorate p s.files j)
      → IsSafe (download_filename s.files j format)
  unfolding decorate
  created_filename-IsSafe s law id input db j format h shown =
      let made = create_job-IsCreated p s law id input db h in
      let same : made.job ≡ j = ap (λ b. shown_job b j) (sym made.shown ∙ shown) in
      filename-IsSafe s.files j format (
        subst IsSafe (sym made.target ∙ ap (λ (k : Job p). k.target_language) same)
          (entry-IsSafe made.entry.0 made.language languages languages_are_safe made.entry.1))
