-- ===== src/Api/Remember.antt =====
-- How `download` of backend/src/api.rs remembers the format and the layout.
use ryu_subtitles.Prelude.{
  ℕ, ◌≡◌, refl, sym, ap, ap₂, subst, ◌∙◌, inl, inr, true, not, ◌||◌, some, arith, ok, bind_passed,
  ok-injective, Bool-cases,
}
use ryu_subtitles.Text.{Text, codes}
use ryu_subtitles.Cues.Model.{Format, Layout, srt, vtt}
use ryu_subtitles.Store.Model.{Platform, Row, Job, Db, parse_layout-layout_str}
use ryu_subtitles.Store.Rows.{row_to_job, opened, opened_opt, find_row}
use ryu_subtitles.Store.Jobs as Store
use ryu_subtitles.Store.Jobs.Updates.{update-Updates, find_row_hit, find_row-id}
use ryu_subtitles.Store.Jobs.Content.{parse_format-extension}
use ryu_subtitles.Store.Jobs.Restart.{update_rows_total}
use ryu_subtitles.Store.Queue
use ryu_subtitles.Store.Queue.Readable.{read_cues, cues_found, get_job_found, get_row}
use ryu_subtitles.Store.Queue.Kept.{options-id}
use ryu_subtitles.Api.Model.{Site}
use ryu_subtitles.Api.Download

pub same_format-eq : (f g : Format) → Download.same_format f g ≡ true → f ≡ g
unfolding Download.same_format
same_format-eq srt srt h = refl
same_format-eq vtt vtt h = refl
same_format-eq srt vtt h = cc
same_format-eq vtt srt h = cc

pub same_layout-eq : (l m : Layout) → Download.same_layout l m ≡ true → l ≡ m
unfolding Download.same_layout
same_layout-eq Layout.translated Layout.translated h = refl
same_layout-eq Layout.source Layout.source h = refl
same_layout-eq Layout.bilingual Layout.bilingual h = refl
same_layout-eq Layout.translated Layout.source h = cc
same_layout-eq Layout.translated Layout.bilingual h = cc
same_layout-eq Layout.source Layout.translated h = cc
same_layout-eq Layout.source Layout.bilingual h = cc
same_layout-eq Layout.bilingual Layout.translated h = cc
same_layout-eq Layout.bilingual Layout.source h = cc

module _ (p : Platform) where
  options_job :
      (format : Format) (layout : Layout) (now : ℕ) (r r' : Row p) (j : Job p)
      → row_to_job p r ≡ ok j
      → Store.write_render_options p format layout now r ≡ ok r'
      → row_to_job p r' ≡ ok (record j { format = format; layout = layout; updated_at = now })
  unfolding Store.write_render_options row_to_job
  options_job format layout now r r' j h c =
      let (path, e₁, h₁) =
        bind_passed (opened p (codes "jobs.source_path") r.id r.source_path) _ h in
      let (name, e₂, h₂) =
        bind_passed (opened p (codes "jobs.source_name") r.id r.source_name) _ h₁ in
      let (error, e₃, h₃) = bind_passed (opened_opt p (codes "jobs.error") r.id r.error) _ h₂ in
      let (output, e₄, h₄) =
        bind_passed (opened_opt p (codes "jobs.output_path") r.id r.output_path) _ h₃ in
      subst
        (λ x. row_to_job p x ≡ ok (record j { format = format; layout = layout; updated_at = now }))
        (ok-injective _ r' c)
        (rw (e₁, e₂, e₃, e₄, parse_format-extension format, parse_layout-layout_str layout)
          (ap (λ (k : Job p). ok (record k { format = format; layout = layout; updated_at = now }))
            (ok-injective _ j h₄)))

  cues-row :
      (id : Text) (db db' : Db p) (r r' : Row p)
      → find_row p id db.jobs ≡ some r
      → find_row p id db'.jobs ≡ some r'
      → r'.id ≡ r.id
      → r'.cues ≡ r.cues
      → Queue.cues p id db' ≡ Queue.cues p id db
  cues-row id db db' r r' here here' same kept =
      cues_found p id db' r' here' ∙ ap₂ (read_cues p) same kept ∙ sym (cues_found p id db r here)

  options-cues :
      (format : Format) (layout : Layout) (now : ℕ) (r r' : Row p)
      → Store.write_render_options p format layout now r ≡ ok r'
      → r'.cues ≡ r.cues
  unfolding Store.write_render_options
  options-cues format layout now r r' h = ground arith

  -- The job of `id` in `db` has the format and the layout, and otherwise what `job` and `before` have
  -- of what a download shows.
  pub record Remembers (id : Text) (job : Job p) (format : Format) (layout : Layout)
      (before db : Db p) : Type 0 where
    pub stored : Job p
    pub found : Queue.get_job p id db ≡ ok (some stored)
    pub format_is : stored.format ≡ format
    pub layout_is : stored.layout ≡ layout
    pub name : stored.source_name ≡ job.source_name
    pub language : stored.target_language ≡ job.target_language
    pub cues : Queue.cues p id db ≡ Queue.cues p id before

  set_options-Remembers :
      (id : Text) (job : Job p) (format : Format) (layout : Layout) (now : ℕ) (db : Db p)
      (out : ℕ × Db p)
      → Queue.get_job p id db ≡ ok (some job)
      → Store.set_render_options p id format layout now db ≡ ok out
      → Remembers id job format layout db out.1
  unfolding Store.set_render_options Store.has_id
  set_options-Remembers id job format layout now db out h run =
      let (r, here, reads) = get_job_found p id db job h in
      let change = Store.write_render_options p format layout now in
      let (r', c, there) =
        find_row_hit p (Store.has_id p id) change (options-id p format layout now) id r
          (update-Updates p (Store.has_id p id) change db out run) (find_row-id p id r db.jobs here)
          here in
      record {
        stored = record job { format = format; layout = layout; updated_at = now };
        found = get_row p id out.1 r' _ there (options_job format layout now r r' job reads c);
        format_is = refl;
        layout_is = refl;
        name = refl;
        language = refl;
        cues =
            cues-row id db out.1 r r' here there (options-id p format layout now r r' c)
              (options-cues format layout now r r' c);
      }

  set_options_total :
      (id : Text) (format : Format) (layout : Layout) (now : ℕ) (db : Db p)
      → (out : ℕ × Db p) × (Store.set_render_options p id format layout now db ≡ ok out)
  unfolding Store.set_render_options Store.update Store.write_render_options
  set_options_total id format layout now db =
      let (done, e) =
        update_rows_total p (Store.has_id p id) (Store.write_render_options p format layout now)
          (λ r. (_, refl)) db.jobs in
      ((done.0, record db { jobs = done.1 }), rw e refl)

  module _ (s : Site p) (quiet : (k : ℕ) (db : Db p) → s.meddle k db ≡ db) where
    or_kept-Remembers :
        (id : Text) (job : Job p) (format : Format) (layout : Layout) (now : ℕ) (db : Db p)
        → Queue.get_job p id db ≡ ok (some job)
        → Remembers id job format layout db
            (Download.or_kept p s db (Store.set_render_options p id format layout now db))
    unfolding Download.or_kept
    or_kept-Remembers id job format layout now db h =
        let (out, e) = set_options_total id format layout now db in
        subst (λ o. Remembers id job format layout db (Download.or_kept p s db o)) (sym e)
          (set_options-Remembers id job format layout now db out h e)

    pub remember-Remembers :
        (id : Text) (job : Job p) (format : Format) (layout : Layout) (db : Db p)
        → Queue.get_job p id db ≡ ok (some job)
        → Remembers id job format layout db (Download.remember p s id job format layout db)
    unfolding Download.remember
    remember-Remembers id job format layout db h =
        elim (Bool-cases (
          not (Download.same_format format job.format)
          || not (Download.same_layout layout job.layout))) [
            | inl t ↦ rw t (
                subst
                  (λ d. Remembers id job format layout db (
                    Download.or_kept p s d
                      (Store.set_render_options p id format layout (s.now 2) d)))
                  (sym (quiet 2 db)) (or_kept-Remembers id job format layout (s.now 2) db h))
            | inr t ↦ rw t (record {
              stored = job;
              found = h;
              format_is = sym (same_format-eq format job.format (ground arith));
              layout_is = sym (same_layout-eq layout job.layout (ground arith));
              name = refl;
              language = refl;
              cues = refl;
            })
          ]
