-- ===== src/Api/Early.antt =====
-- How the handlers of backend/src/api.rs return early.
use ryu_subtitles.Prelude.{
  ◌≡◌, refl, ◌∙◌, ◌≤◌, Bool, true, false, Option, none, some, [], arith, Result, ok, err, ◌>>=◌,
  if◌then◌else◌,
}
use ryu_subtitles.Text.{Text}
use ryu_subtitles.Store.Model.{Platform, Job, Db, StoreError}
use ryu_subtitles.Store.Queue
use ryu_subtitles.Api.Model.{
  Response, Answer, Site, answered, either, reply, or_500, or_404, or_vanished, server_error,
  not_found, error_response,
}
use ryu_subtitles.Api.Jobs

module _ (p : Platform) where
  -- An error is answered only where nothing was done.
  pub record Spares (db : Db p) (a : Answer p) : Type 0 where
    pub nothing_done : 400 ≤ a.response.status → (a.db ≡ db) × (a.signals ≡ [])

  pub moved : {db db' : Db p} {a : Answer p} → db' ≡ db → Spares db' a → Spares db a
  moved {db} {db'} {a} e h = record {
    nothing_done = λ q. let (same, silent) = h.nothing_done q in (same ∙ e, silent);
  }

  pub fine : (db : Db p) (a : Answer p) → a.response.status ≤ 299 → Spares db a
  fine db a h = record { nothing_done = λ q. absurd (omega arith) }

  pub reply-Spares : (r : Response p) (db : Db p) → Spares db (reply p r db)
  unfolding reply
  reply-Spares r db = record { nothing_done = λ q. (refl, refl) }

  pub error-Spares : (db : Db p) (r : Response p) → Spares db (answered p db (err r))
  unfolding answered
  error-Spares db r = record { nothing_done = λ q. (refl, refl) }

  pub done-Spares : {db : Db p} {a : Answer p} → Spares db a → Spares db (answered p db (ok a))
  unfolding answered
  done-Spares h = h

  pub bind-Spares :
      {A : Type 0} {db : Db p} (o : Result (Response p) A)
      (next : A → Result (Response p) (Answer p))
      → ((a : A) → o ≡ ok a → Spares db (answered p db (next a)))
      → Spares db (answered p db (o >>= next))
  bind-Spares (ok a) next h = h a refl
  bind-Spares {db = db} (err response) next h = error-Spares db response

  -- A branch of which one arm is an early return.
  pub branch-Spares :
      {db : Db p} (b : Bool) (first second : Result (Response p) (Answer p))
      → (b ≡ true → Spares db (answered p db first))
      → (b ≡ false → Spares db (answered p db second))
      → Spares db (answered p db (if b then first else second))
  branch-Spares true first second h k = h refl
  branch-Spares false first second h k = k refl

  -- What holds of the answer of both arms of `?`.
  pub bind_holds :
      {A : Type 0} (Q : Answer p → Type 0) (db : Db p) (o : Result (Response p) A)
      (next : A → Result (Response p) (Answer p))
      → ((a : A) → o ≡ ok a → Q (answered p db (next a)))
      → ((r : Response p) → o ≡ err r → Q (reply p r db))
      → Q (answered p db (o >>= next))
  unfolding answered reply
  bind_holds Q db (ok a) next h k = h a refl
  bind_holds Q db (err response) next h k = k response refl

  module _ (s : Site p) where
    pub or_500_err :
        {A : Type 0} (o : Result StoreError A) (r : Response p)
        → or_500 p s o ≡ err r
        → r.status ≡ 500
    unfolding or_500 server_error error_response
    or_500_err (ok x) r h = cc
    or_500_err (err e) r h = ground arith

    pub or_404_err :
        {A : Type 0} (o : Result StoreError (Option A)) (r : Response p)
        → or_404 p s o ≡ err r
        → 400 ≤ r.status
    unfolding or_404 server_error not_found error_response
    or_404_err (ok (some x)) r h = cc
    or_404_err (ok none) r h = ground arith
    or_404_err (err e) r h = ground arith

    pub or_500_ok : {A : Type 0} (o : Result StoreError A) (a : A) → or_500 p s o ≡ ok a → o ≡ ok a
    unfolding or_500
    or_500_ok (ok x) a h = cc
    or_500_ok (err e) a h = cc

    pub or_404_ok :
        {A : Type 0} (o : Result StoreError (Option A)) (a : A)
        → or_404 p s o ≡ ok a
        → o ≡ ok (some a)
    unfolding or_404
    or_404_ok (ok (some x)) a h = cc
    or_404_ok (ok none) a h = cc
    or_404_ok (err e) a h = cc

    pub reread_found :
        (id what : Text) (db : Db p) (j : Job p)
        → Queue.get_job p id db ≡ ok (some j)
        → Jobs.reread p s id what db ≡ Jobs.show_job p s j
    unfolding Jobs.reread or_vanished either
    reread_found id what db j h = rw h refl
