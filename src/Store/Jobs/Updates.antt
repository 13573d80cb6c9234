-- ===== src/Store/Jobs/Updates.antt =====
-- `update_rows` as a relation between the rows before and after a statement.
use ryu_subtitles.Prelude.{
  ℕ, zero, suc, ◌≡◌, refl, sym, ap, ap₂, subst, ◌∙◌, Bool, true, false, some, inl, inr, List, [],
  ◌∷◌, arith, map, Result, ok, bind_passed, ok-injective, Bool-cases, ltb, All,
}
use ryu_subtitles.Text.{Text, text_eq}
use ryu_subtitles.Store.Model.{Platform, Row, Db, StoreError}
use ryu_subtitles.Store.Rows.{update_rows, find_row}
use ryu_subtitles.Store.Jobs.{update, changed}

module _ (p : Platform) (test : Row p → Bool) (change : Row p → Result StoreError (Row p)) where
  pub data Updates : List (Row p) → ℕ → List (Row p) → Type 0 where
    done : Updates [] zero []
    hit :
        {r r' : Row p} {rs rs' : List (Row p)} {n : ℕ}
        → test r ≡ true
        → change r ≡ ok r'
        → Updates rs n rs'
        → Updates (r ∷ rs) (suc n) (r' ∷ rs')
    miss :
        {r : Row p} {rs rs' : List (Row p)} {n : ℕ}
        → test r ≡ false
        → Updates rs n rs'
        → Updates (r ∷ rs) n (r ∷ rs')

  pub update_rows-Updates :
      (rs : List (Row p)) (out : ℕ × List (Row p))
      → update_rows p test change rs ≡ ok out
      → Updates rs out.0 out.1
  unfolding update_rows
  update_rows-Updates [] out h = subst (λ o. Updates [] o.0 o.1) (ok-injective (0, []) out h) done
  update_rows-Updates (r ∷ rs) out h =
      let (rest, e, f) = bind_passed (update_rows p test change rs) _ h in
      let ih = update_rows-Updates rs rest e in
      elim (Bool-cases (test r)) [
        | inl t ↦
            let (r', c, g) = bind_passed (change r) _ (rw t at f) in
            subst (λ o. Updates (r ∷ rs) o.0 o.1) (ok-injective _ out g) (hit t c ih)
        | inr t ↦ subst (λ o. Updates (r ∷ rs) o.0 o.1) (ok-injective _ out (rw t at f)) (miss t ih)
      ]

  pub update-Updates :
      (db : Db p) (out : ℕ × Db p)
      → update p test change db ≡ ok out
      → Updates db.jobs out.0 out.1.jobs
  unfolding update
  update-Updates db out h =
      let (d, e, f) = bind_passed (update_rows p test change db.jobs) _ h in
      subst (λ o. Updates db.jobs o.0 o.1.jobs) (ok-injective _ out f)
        (update_rows-Updates db.jobs d e)

  -- What `changed` says: whether a row was hit.
  pub changed-Updates :
      (db : Db p) (out : Bool × Db p)
      → changed p test change db ≡ ok out
      → (n : ℕ) × Updates db.jobs n out.1.jobs × (out.0 ≡ ltb 0 n)
  unfolding changed
  changed-Updates db out h =
      let (d, e, f) = bind_passed (update p test change db) _ h in
      let same = ok-injective (ltb 0 d.0, d.1) out f in
      (
        d.0,
        subst (λ (o : Bool × Db p). Updates db.jobs d.0 o.1.jobs) same (update-Updates db d e),
        sym (ap (λ (o : Bool × Db p). o.0) same),
      )

  -- No row was hit: nothing changed.
  pub Updates-zero :
      (rs rs' : List (Row p)) → All (λ r. test r ≡ false) rs → (n : ℕ) → Updates rs n rs' → n ≡ 0
  Updates-zero [] rs' h n done = refl
  Updates-zero (r ∷ rs) rs' (q, h) n (hit t c u) = cc
  Updates-zero (r ∷ rs) rs' (q, h) n (miss t u) = Updates-zero rs _ h n u

  -- A property of rows that the change establishes, or that a row which is not hit had.
  pub Updates-All :
      (P Q : Row p → Type 0)
      → ((r r' : Row p) → P r → test r ≡ true → change r ≡ ok r' → Q r')
      → ((r : Row p) → P r → test r ≡ false → Q r)
      → {rs : List (Row p)} {n : ℕ} {rs' : List (Row p)} → Updates rs n rs'
      → All P rs
      → All Q rs'
  Updates-All P Q onhit onmiss done h = tt
  Updates-All P Q onhit onmiss (hit {r} {r'} t c u) (q, h) =
      (onhit r r' q t c, Updates-All P Q onhit onmiss u h)
  Updates-All P Q onhit onmiss (miss {r} t u) (q, h) =
      (onmiss r q t, Updates-All P Q onhit onmiss u h)

module _ (p : Platform) where
  pub find_row_here :
      (id : Text) (r : Row p) (rs : List (Row p))
      → text_eq r.id id ≡ true
      → find_row p id (r ∷ rs) ≡ some r
  unfolding find_row
  find_row_here id r rs e = rw e

  pub find_row_there :
      (id : Text) (r : Row p) (rs : List (Row p))
      → text_eq r.id id ≡ false
      → find_row p id (r ∷ rs) ≡ find_row p id rs
  unfolding find_row
  find_row_there id r rs e = rw e

  find_row_same :
      (id : Text) (s r : Row p) (rs : List (Row p))
      → text_eq s.id id ≡ true
      → find_row p id (s ∷ rs) ≡ some r
      → s ≡ r
  find_row_same id s r rs e h = cc (find_row_here id s rs e)

  pub find_row-id :
      (id : Text) (r : Row p) (rs : List (Row p))
      → find_row p id rs ≡ some r
      → text_eq r.id id ≡ true
  unfolding find_row
  find_row-id id r [] h = cc
  find_row-id id r (s ∷ rs) h = elim (Bool-cases (text_eq s.id id)) [
    | inl e ↦ subst (λ (x : Row p). text_eq x.id id ≡ true) (find_row_same id s r rs e h) e
    | inr e ↦ find_row-id id r rs (rw e at h)
  ]

module _ (p : Platform) (test : Row p → Bool) (change : Row p → Result StoreError (Row p))
    (keeps : (r r' : Row p) → change r ≡ ok r' → r'.id ≡ r.id) where
  pub Updates-ids :
      {rs : List (Row p)} {n : ℕ} {rs' : List (Row p)}
      → Updates p test change rs n rs'
      → map (λ r. r.id) rs' ≡ map (λ r. r.id) rs
  Updates-ids done = refl
  Updates-ids (hit {r} {r'} t c u) = ap₂ (λ x xs. x ∷ xs) (keeps r r' c) (Updates-ids u)
  Updates-ids (miss {r} t u) = ap (λ xs. r.id ∷ xs) (Updates-ids u)

  -- The row of an id that the statement does not hit stays as it is.
  pub find_row_miss :
      (id : Text) (r : Row p) {rs : List (Row p)} {n : ℕ} {rs' : List (Row p)}
      → Updates p test change rs n rs'
      → test r ≡ false
      → find_row p id rs ≡ some r
      → find_row p id rs' ≡ some r
  unfolding find_row
  find_row_miss id r done q h = h
  find_row_miss id r (hit {r = s} {r' = s'} t c u) q h =
      ground (arith, keeps s s' c, find_row_miss id r u q)
  find_row_miss id r (miss {r = s} t u) q h = ground (arith, find_row_miss id r u q)

  same_id :
      (id : Text) (s s' : Row p) (b : Bool)
      → change s ≡ ok s'
      → text_eq s.id id ≡ b
      → text_eq s'.id id ≡ b
  same_id id s s' b c e = ap (λ i. text_eq i id) (keeps s s' c) ∙ e

  -- The row of an id that the statement hits is changed.
  pub find_row_hit :
      (id : Text) (r : Row p) {rs : List (Row p)} {n : ℕ} {rs' : List (Row p)}
      → Updates p test change rs n rs'
      → test r ≡ true
      → find_row p id rs ≡ some r
      → (r' : Row p) × (change r ≡ ok r') × (find_row p id rs' ≡ some r')
  find_row_hit id r done q h = absurd (unfold find_row in ground arith)
  find_row_hit id r (hit {r = s} {r' = s'} {rs = rs} {rs' = rs'} t c u) q h =
      elim (Bool-cases (text_eq s.id id)) [
        | inl e ↦ (
          s',
          subst (λ x. change x ≡ ok s') (find_row_same p id s r rs e h) c,
          find_row_here p id s' rs' (same_id id s s' true c e),
        )
        | inr e ↦
            let (r', d, f) = find_row_hit id r u q (sym (find_row_there p id s rs e) ∙ h) in
            (r', d, find_row_there p id s' rs' (same_id id s s' false c e) ∙ f)
      ]
  find_row_hit id r (miss {r = s} {rs = rs} {rs' = rs'} t u) q h =
      elim (Bool-cases (text_eq s.id id)) [
        | inl e ↦ cc (subst (λ x. test x ≡ false) (find_row_same p id s r rs e h) t)
        | inr e ↦
            let (r', d, f) = find_row_hit id r u q (sym (find_row_there p id s rs e) ∙ h) in
            (r', d, find_row_there p id s rs' e ∙ f)
      ]
