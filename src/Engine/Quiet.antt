-- ===== src/Engine/Quiet.antt =====
-- What the parts of `run_job` in backend/src/engine.rs do to the log.
use ryu_subtitles.Prelude.{
  ℕ, ◌≡◌, refl, ◌∙◌, inl, inr, Bool, true, false, not, Option, none, some, List, [], ◌∷◌,
  Bool-cases, arith, Result, ok, err,
}
use ryu_subtitles.Text.{Text, is_empty}
use ryu_subtitles.Cues.Model.{Cue}
use ryu_subtitles.Cues.Normalize.{normalize}
use ryu_subtitles.Languages.{Language, find}
use ryu_subtitles.Library.{PathError}
use ryu_subtitles.Store.Model.{Platform, Job, Db, StoreError}
use ryu_subtitles.Translate.Pass.Invariant.{Kept, kept-translate_cues}
use ryu_subtitles.Engine.Target.{transcript_is_target}
use ryu_subtitles.Engine.Model.{
  Window, Effect, World, Around, Stop, Step, and_then, ◌>>=◌, go_on, tick, attempt, attempt_path,
  found, settle_access, write, read,
}
use ryu_subtitles.Engine.Run.{
  is_canceled, unless_canceled, known, store_transcript, start, hear, hear_all, transcribe, outside,
  translation, finished, require_translated, translate, translate_if_needed, commit, before_commit,
  prepare,
}

-- A stretch of code that publishes nothing.
abbrev pub Quiet : {p : Platform} {A : Type 0} → Step p A → Type 0
Quiet {p = p} m = (w : World p) → (m w).1.log ≡ w.log

module _ {p : Platform} (a : Around p) where
  Quiet->>= :
      {A B : Type 0} (m : Step p A) (f : A → Step p B)
      → Quiet m
      → ((x : A) → Quiet (f x))
      → Quiet (m >>= f)
  unfolding ◌>>=◌
  Quiet->>= {A = A} {B = B} m f hm hf w = after (m w) (hm w)
    where
      after :
          (done : Result Stop A × World p) → done.1.log ≡ w.log → (and_then f done).1.log ≡ w.log
      after (ok x, w') h = hf x w' ∙ h
      after (err e, w') h = h

  pub Quiet-write :
      {A : Type 0} (method : ℕ → Db p → Result StoreError (A × Db p)) → Quiet (write a method)
  unfolding write
  Quiet-write {A = A} method w = settled (method (a.now w.time) (found a w))
    where
      settled : (r : Result StoreError (A × Db p)) → (settle_access a w r).1.log ≡ w.log
      settled (ok out) = refl
      settled (err e) = refl

  Quiet-go_on : (b : Bool) → Quiet {p = p} {A = Unit} (go_on b)
  Quiet-go_on true w = refl
  Quiet-go_on false w = refl

  Quiet-attempt : {A : Type 0} (r : Result Text A) → Quiet {p = p} (attempt r)
  Quiet-attempt (ok x) w = refl
  Quiet-attempt (err e) w = refl

  Quiet-unless_canceled : (id : Text) → Quiet (unless_canceled a id)
  unfolding unless_canceled
  Quiet-unless_canceled id =
      Quiet->>= (is_canceled a id) _ (λ w. unfold is_canceled read in refl)
        (λ gone. Quiet-go_on (not gone))

  Quiet-attempt_path : {A : Type 0} (r : Result PathError A) → Quiet {p = p} (attempt_path r)
  Quiet-attempt_path (ok x) w = refl
  Quiet-attempt_path (err e) w = refl

  Quiet-known : (target : Text) (l : Option Language) → Quiet {p = p} (known target l)
  Quiet-known target (some l) w = refl
  Quiet-known target none w = refl

  Quiet-start : (job : Job p) → Quiet (start a job)
  unfolding start
  Quiet-start job = Quiet->>= _ _ (Quiet-write _) (λ active.
      Quiet->>= _ _ (Quiet-go_on active) (λ _. Quiet->>= _ _ (Quiet-write _) (λ _.
        Quiet->>= _ _ (Quiet-attempt_path _)
          (λ _. Quiet-known job.target_language (find job.target_language)))))

  Quiet-hear :
      (job : Job p) (window : Window a.Wav) (cues : List Cue) → Quiet (hear a job window cues)
  unfolding hear
  Quiet-hear job window cues =
      Quiet->>= _ _ (Quiet-unless_canceled job.id)
        (λ _. Quiet->>= tick _ (λ w. refl) (λ time. Quiet->>= _ _ (Quiet-attempt _) (λ t w. refl)))

  Quiet-hear_all :
      (job : Job p) (messages : List (Result Text (Window a.Wav))) (cues : List Cue)
      → Quiet (hear_all a job messages cues)
  unfolding hear_all
  Quiet-hear_all job [] cues w = refl
  Quiet-hear_all job (err e ∷ messages) cues w = refl
  Quiet-hear_all job (ok window ∷ messages) cues w =
      Quiet->>= _ _ (Quiet-hear job window cues) (λ cs. Quiet-hear_all job messages cs) w

  Quiet-store_cues :
      (job : Job p) (empty : Bool) (cues : List Cue) → Quiet (store_transcript a job empty cues)
  unfolding store_transcript
  Quiet-store_cues job true cues w = refl
  Quiet-store_cues job false cues w = Quiet->>= _ _ (Quiet-write _) (λ _ w'. refl) w

  Quiet-transcribe : (job : Job p) → Quiet (transcribe a job)
  unfolding transcribe
  Quiet-transcribe job = Quiet->>= _ _ (Quiet-hear_all job _ []) (λ cues.
      Quiet->>= _ _ (Quiet-unless_canceled job.id)
        (λ _. Quiet-store_cues job (is_empty (normalize cues)) (normalize cues)))

  log_kept : (job : Job p) (language : Language) → List Effect → Kept (outside a job language)
  unfolding outside is_canceled read
  log_kept job language log = record {
    holds = λ w. w.log ≡ log;
    send = λ user w h. h;
    poll = λ w h. h;
    report = λ done total w h. h;
  }

  Quiet-translation :
      (job : Job p) (language : Language) (cues : List Cue)
      → Quiet (translation a job language cues)
  unfolding translation log_kept
  Quiet-translation job language cues w =
      kept-translate_cues (outside a job language) (log_kept job language w.log) cues w refl

  Quiet-require_translated : (n : ℕ) → Quiet (require_translated a n)
  unfolding require_translated
  Quiet-require_translated n w = ground arith

  Quiet-finished : (r : Option ℕ) → Quiet (finished a r)
  Quiet-finished (some n) w = refl
  Quiet-finished none w = refl

  Quiet-translate :
      (job : Job p) (language : Language) (cues : List Cue) → Quiet (translate a job language cues)
  unfolding translate
  Quiet-translate job language cues = Quiet->>= _ _ (Quiet-write _) (λ active.
      Quiet->>= _ _ (Quiet-go_on active) (λ _.
        Quiet->>= _ _ (Quiet-translation job language cues) (λ done.
          Quiet->>= _ _ (Quiet-finished done.0) (λ n.
            Quiet->>= _ _ (Quiet-unless_canceled job.id) (λ _.
              Quiet->>= _ _ (Quiet-write _)
                (λ _. Quiet->>= _ _ (Quiet-require_translated n) (λ _ w. refl)))))))

  Quiet-translate_if_needed :
      (job : Job p) (language : Language) (cues : List Cue)
      → Quiet (translate_if_needed a job language cues)
  unfolding translate_if_needed
  Quiet-translate_if_needed job language cues w =
      elim (Bool-cases (transcript_is_target a.is_alphabetic cues language)) [
        | inl e ↦ rw e refl
        | inr e ↦ rw e (Quiet-translate job language cues w)
      ]

  Quiet-before_commit : (job : Job p) (cues : List Cue) → Quiet (before_commit a job cues)
  unfolding before_commit
  Quiet-before_commit job cues = Quiet->>= _ _ (Quiet-write _) (λ _. Quiet-unless_canceled job.id)

  -- All that a run does before its commit publishes nothing.
  pub Quiet-prepare : (job : Job p) → Quiet (prepare a job)
  unfolding prepare
  Quiet-prepare job = Quiet->>= _ _ (Quiet-start job) (λ language.
      Quiet->>= _ _ (Quiet-transcribe job) (λ cues.
        Quiet->>= _ _ (Quiet-translate_if_needed job language cues)
          (λ all_cues. Quiet->>= _ _ (Quiet-before_commit job all_cues) (λ _ w. refl))))

  pub Quiet-commit : (job : Job p) → Quiet (commit a job)
  unfolding commit
  Quiet-commit job = Quiet-write _
