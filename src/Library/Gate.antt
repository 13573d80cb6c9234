-- ===== src/Library/Gate.antt =====
-- The path gate: what `validate_source` lets through.
use ryu_subtitles.Prelude.{
  ◌≡◌, refl, ◌⊎◌, inl, inr, Bool, true, Option, some, List, [], ◌∷◌, ok, err, arith, Bool-cases,
  Result, ok_or, bind_passed, subst, if◌then◌else◌,
}
use ryu_subtitles.Text.{Text, trim, is_empty}
use ryu_subtitles.Library.{
  Files, PathError, missing, or_else, containment_roots, under_any, contained, check_canonical,
  validate_source, is_media_path,
}

abbrev pub Member : Text → List Text → Type 0
Member root [] = ⊥
Member root (r ∷ rs) = (root ≡ r) ⊎ Member root rs

module _ (f : Files) where
  -- A file that the app may read: a root that contains it, and its extension among the media ones.
  abbrev pub Readable : Text → Type 0
  Readable path =
      (f.is_file path ≡ true)
      × ((root : Text) × Member root (containment_roots f)
          × (f.under path (or_else (f.canonicalize root) root) ≡ true))
      × (is_media_path f path ≡ true)

  under_any-Member :
      (path : Text) (roots : List Text)
      → under_any f path roots ≡ true
      → (root : Text) × Member root roots
        × (f.under path (or_else (f.canonicalize root) root) ≡ true)
  unfolding under_any
  under_any-Member path [] h = cc
  under_any-Member path (root ∷ roots) h =
      elim (Bool-cases (f.under path (or_else (f.canonicalize root) root))) [
        | inl e ↦ (root, inl refl, e)
        | inr e ↦ let (r, m, u) = under_any-Member path roots (rw e at h) in (r, inr m, u)
      ]

  check_canonical_sound :
      (path canonical : Text)
      → check_canonical f path ≡ ok canonical
      → (path ≡ canonical)
        × (f.is_file path ≡ true)
        × (contained f path ≡ true)
        × (is_media_path f path ≡ true)
  unfolding check_canonical
  check_canonical_sound path canonical h = ground arith

  check_canonical-Readable :
      (path canonical : Text) → check_canonical f path ≡ ok canonical → Readable canonical
  unfolding contained
  check_canonical-Readable path canonical h =
      let (e, is_file, inside, media) = check_canonical_sound path canonical h in
      subst Readable e (is_file, under_any-Member path (containment_roots f) inside, media)

  ok_or_ok : (o : Option Text) (e : PathError) (t : Text) → ok_or o e ≡ ok t → o ≡ some t
  ok_or_ok o e t h = ground arith

  past_empty :
      (b : Bool) (r : Result PathError Text) (t : Text)
      → (if b then err missing else r) ≡ ok t
      → r ≡ ok t
  past_empty b r t h = ground arith

  -- A path that passes the gate is the canonical form of the trimmed text of the request: the tests
  -- are on that form, so neither `..` nor a link leads out. It is a file, it lies under a
  -- containment root, whose own canonical form is compared if it has one, and it is a media file.
  pub validate_source_sound :
      (path canonical : Text)
      → validate_source f path ≡ ok canonical
      → (f.canonicalize (trim path) ≡ some canonical) × Readable canonical
  unfolding validate_source
  validate_source_sound path canonical h =
      let passed = past_empty (is_empty (trim path)) _ canonical h in
      let (c, e, checked) = bind_passed (ok_or (f.canonicalize (trim path)) missing) _ passed in
      let (same, _, _, _) = check_canonical_sound c canonical checked in
      (
        subst (λ x. f.canonicalize (trim path) ≡ some x) same (ok_or_ok _ missing c e),
        check_canonical-Readable c canonical checked,
      )
