-- ===== src/Store/Machine/Calls.antt =====
-- The guarded calls of backend/src/store.rs against the abstract machine.
use ryu_subtitles.Prelude.{
  ℕ, ◌≡◌, refl, subst, Bool, false, not, ◌&&◌, Option, none, some, List, arith, Result, ok, err,
  ◌>>=◌, ok_or, bind_passed, ok-injective, if◌then◌else◌,
}
use ryu_subtitles.Text.{Text, text_eq}
use ryu_subtitles.Cues.Model.{Cue}
use ryu_subtitles.Store.Model.{
  Platform, Row, Db, StoreError, not_json, Status, canceled, completed, is_terminal, as_str,
}
use ryu_subtitles.Store.Rows.{seal_opt, seal_text}
use ryu_subtitles.Store.Jobs
use ryu_subtitles.Store.Jobs.Updates.{update-Updates, changed-Updates}
use ryu_subtitles.Store.Jobs.Closed.{status-writes, canceled-writes, completed-writes}
use ryu_subtitles.Store.Jobs.Guarded.{
  IsGuarded, Guarded, status, cancel, complete, progress, cue_list, restart, call, status-IsGuarded,
  canceled-IsGuarded, completed-IsGuarded, progress-IsGuarded, cues-IsGuarded,
  interrupted-IsGuarded,
}
use ryu_subtitles.Store.Machine.Moves.{wrote_active, kept_status, interrupted_status}
use ryu_subtitles.Store.Machine.{status_of, behind, passed, move_active, each}

module _ (p : Platform) where
  -- A call that fails leaves the machine where it is.
  pub behind_status :
      {A : Type 0} (id : Text) (db : Db p) (t : Option Status) (o : Result StoreError (A × Db p))
      → ((out : A × Db p) → o ≡ ok out → status_of p id out.1 ≡ t)
      → status_of p id (behind p db o) ≡ (if passed p o then t else status_of p id db)
  behind_status id db t (ok out) h = h out refl
  behind_status id db t (err e) h = refl

  silent_status :
      (id : Text) (t : Option Status) (m : Result StoreError (ℕ × Db p)) (out : Bool × Db p)
      → ((done : ℕ × Db p) → m ≡ ok done → status_of p id done.1 ≡ t)
      → (m >>= λ (done : ℕ × Db p). ok (false, done.1)) ≡ ok out
      → status_of p id out.1 ≡ t
  silent_status id t m out g h =
      let (done, e, f) = bind_passed m _ h in
      subst (λ (o : Bool × Db p). status_of p id o.1 ≡ t) (ok-injective (false, done.1) out f)
        (g done e)

  interrupted-writes :
      (error : Option Text) (now : ℕ) (r r' : Row p)
      → Jobs.write_interrupted p error now r ≡ ok r'
      → r'.status ≡ as_str canceled
  unfolding Jobs.write_interrupted seal_opt as_str
  interrupted-writes none now r r' h = ground arith
  interrupted-writes (some e) now r r' h = ground arith

  progress-status :
      (value : p.Real) (stage : Text) (duration_ms : Option ℕ) (now : ℕ) (r r' : Row p)
      → Jobs.write_progress p value stage duration_ms now r ≡ ok r'
      → r'.status ≡ r.status
  unfolding Jobs.write_progress
  progress-status value stage duration_ms now r r' h = ground arith

  cues-status :
      (id json : Text) (cues : List Cue) (now : ℕ) (r r' : Row p)
      → Jobs.write_cues p id json cues now r ≡ ok r'
      → r'.status ≡ r.status
  unfolding Jobs.write_cues seal_text
  cues-status id json cues now r r' h = ground arith

  changed_status :
      (id other : Text) (s : Status) (change : Row p → Result StoreError (Row p)) (db : Db p)
      (out : Bool × Db p)
      → IsGuarded p (Jobs.is_active_id p other) change
      → ((r r' : Row p) → change r ≡ ok r' → r'.status ≡ as_str s)
      → Jobs.changed p (Jobs.is_active_id p other) change db ≡ ok out
      → status_of p id out.1
        ≡ each p (λ a. if text_eq id other && not (is_terminal a) then s else a) (status_of p id db)
  changed_status id other s change db out g writes h =
      wrote_active p change g.keeps id other s writes
        (changed-Updates p (Jobs.is_active_id p other) change db out h).1

  pub kept_behind :
      (test : Row p → Bool) (change : Row p → Result StoreError (Row p)) (id : Text) (db : Db p)
      (out : ℕ × Db p)
      → ((r r' : Row p) → change r ≡ ok r' → r'.id ≡ r.id)
      → ((r r' : Row p) → change r ≡ ok r' → r'.status ≡ r.status)
      → Jobs.update p test change db ≡ ok out
      → status_of p id out.1 ≡ each p (λ a. a) (status_of p id db)
  kept_behind test change id db out keeps stays h =
      kept_status p test change keeps id stays (update-Updates p test change db out h)

  -- A guarded call that succeeds moves every job as the machine says.
  pub call-move :
      (c : Guarded p) (db : Db p) (out : Bool × Db p) (id : Text)
      → call p c db ≡ ok out
      → status_of p id out.1 ≡ each p (move_active p c id) (status_of p id db)
  unfolding call move_active Jobs.set_status_if_active Jobs.cancel_if_active Jobs.complete_if_active
      Jobs.set_progress Jobs.set_cues Jobs.reset_interrupted
  call-move (status other s error ended now) db out id h =
      changed_status id other s _ db out (status-IsGuarded p other s error ended now)
        (status-writes p other s error ended now) h
  call-move (cancel other reason now) db out id h =
      changed_status id other canceled _ db out (canceled-IsGuarded p other reason now)
        (unfold as_str in canceled-writes p other reason now) h
  call-move (complete other now) db out id h =
      changed_status id other completed _ db out (completed-IsGuarded p other now)
        (unfold as_str in completed-writes p now) h
  call-move (progress other value stage duration_ms now) db out id h =
      silent_status id _ _ out
        (λ done e.
          kept_behind (Jobs.is_active_id p other) _ id db done
            (progress-IsGuarded p other value stage duration_ms now).keeps
            (progress-status value stage duration_ms now) e)
        h
  call-move (cue_list other cues now) db out id h =
      silent_status id _ (Jobs.set_cues p other cues now db) out
        (λ done e.
          let (json, j, g) = bind_passed (ok_or (p.cues_to_json cues) not_json) _ e in
          kept_behind (Jobs.is_active_id p other) _ id db done
            (cues-IsGuarded p other json cues now).keeps (cues-status other json cues now) g)
        h
  call-move (restart now) db out id h =
      silent_status id _ _ out
        (λ done e.
          interrupted_status p _ (interrupted-IsGuarded p _ now).keeps id (interrupted-writes _ now)
            (update-Updates p (Jobs.is_running p) _ db done e))
        h
