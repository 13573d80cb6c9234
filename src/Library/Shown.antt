-- ===== src/Library/Shown.antt =====
-- What `list_dir` of backend/src/library.rs shows of a directory.
use ryu_subtitles.Prelude.{
  ℕ, ◌≡◌, ◌⊎◌, inl, inr, Bool, true, false, ◌||◌, refl, sym, Option, none, some, List, [], ◌∷◌,
  ◌++◌, All, All-append, Bool-cases, subst, if◌then◌else◌,
}
use ryu_subtitles.Text.{codes, starts_with}
use ryu_subtitles.Library.{
  Files, DirEntry, Entry, is_media_path, list_visible, list_entry, list_entries, name_le,
  insert_entry, sort_entries,
}

abbrev pub Member : {A : Type 0} → A → List A → Type 0
Member x [] = ⊥
Member x (y ∷ ys) = (x ≡ y) ⊎ Member x ys

pub All-Member : {A : Type 0} (P : A → Type 0) (x : A) (ys : List A) → All P ys → Member x ys → P x
All-Member P x [] h m = absurd m
All-Member P x (y ∷ ys) (q, h) (inl e) = subst P (sym e) q
All-Member P x (y ∷ ys) (q, h) (inr m) = All-Member P x ys h m

pub Member-left : {A : Type 0} (x : A) (ys zs : List A) → Member x ys → Member x (ys ++ zs)
Member-left x [] zs m = absurd m
Member-left x (y ∷ ys) zs (inl e) = inl e
Member-left x (y ∷ ys) zs (inr m) = inr (Member-left x ys zs m)

pub Member-right : {A : Type 0} (x : A) (ys zs : List A) → Member x zs → Member x (ys ++ zs)
Member-right x [] zs m = m
Member-right x (y ∷ ys) zs m = inr (Member-right x ys zs m)

module _ (f : Files) where
  -- The entry that the picker shows for one of a directory, if it may show it: the name has no dot in
  -- front, and the metadata say that it is a directory or the path that it is a media file.
  pub record Shows (d : DirEntry) (e : Entry) : Type 0 where
    pub length : ℕ
    pub name : e.name ≡ f.to_string_lossy d.file_name
    pub path : e.path ≡ f.to_string_lossy d.path
    pub metadata : d.metadata ≡ some (e.is_dir, length, e.modified_ms)
    pub size : e.size ≡ (if e.is_dir then none else some length)
    pub visible : starts_with (f.to_string_lossy d.file_name) (codes ".") ≡ false
    pub readable : e.is_dir || is_media_path f d.path ≡ true

  abbrev pub Listed : List DirEntry → Entry → Type 0
  Listed ds e = (d : DirEntry) × Member d ds × Shows d e

  list_visible-Shows :
      (d : DirEntry) (m : Option (Bool × ℕ × Option ℕ))
      → d.metadata ≡ m
      → starts_with (f.to_string_lossy d.file_name) (codes ".") ≡ false
      → All (Shows d) (list_visible f d m).0 × All (Shows d) (list_visible f d m).1
  unfolding list_visible
  list_visible-Shows d none e h = (tt, tt)
  list_visible-Shows d (some (true, len, ms)) e h = (
    (
      record {
        length = len;
        name = refl;
        path = refl;
        metadata = e;
        size = refl;
        visible = h;
        readable = refl;
      },
      tt,
    ),
    tt,
  )
  list_visible-Shows d (some (false, len, ms)) e h = elim (Bool-cases (is_media_path f d.path)) [
    | inl t ↦ rw t (
      tt,
      (
        record {
          length = len;
          name = refl;
          path = refl;
          metadata = e;
          size = refl;
          visible = h;
          readable = t;
        },
        tt,
      ),
    )
    | inr t ↦ rw t (tt, tt)
  ]

  list_entry-Shows :
      (d : DirEntry) → All (Shows d) (list_entry f d).0 × All (Shows d) (list_entry f d).1
  unfolding list_entry
  list_entry-Shows d = elim (Bool-cases (starts_with (f.to_string_lossy d.file_name) (codes "."))) [
    | inl t ↦ rw t (tt, tt)
    | inr t ↦ rw t (list_visible-Shows d d.metadata refl t)
  ]

  later :
      (d : DirEntry) (ds : List DirEntry) (es : List Entry)
      → All (Listed ds) es
      → All (Listed (d ∷ ds)) es
  later d ds [] h = tt
  later d ds (e ∷ es) ((from, m, s), h) = ((from, inr m, s), later d ds es h)

  first :
      (d : DirEntry) (ds : List DirEntry) (es : List Entry)
      → All (Shows d) es
      → All (Listed (d ∷ ds)) es
  first d ds [] h = tt
  first d ds (e ∷ es) (s, h) = ((d, inl refl, s), first d ds es h)

  pub list_entries-Listed :
      (ds : List DirEntry)
      → All (Listed ds) (list_entries f ds).0 × All (Listed ds) (list_entries f ds).1
  unfolding list_entries
  list_entries-Listed [] = (tt, tt)
  list_entries-Listed (d ∷ ds) =
      let (a, b) = list_entry-Shows d in
      let (more, others) = list_entries-Listed ds in
      (
        All-append (Listed (d ∷ ds)) _ _ (first d ds _ a) (later d ds _ more),
        All-append (Listed (d ∷ ds)) _ _ (first d ds _ b) (later d ds _ others),
      )

  insert_entry-All :
      (P : Entry → Type 0) (e : Entry) (es : List Entry)
      → P e
      → All P es
      → All P (insert_entry f e es)
  unfolding insert_entry
  insert_entry-All P e [] s h = (s, tt)
  insert_entry-All P e (d ∷ es) s (sd, h) = elim (Bool-cases (name_le f e d)) [
    | inl t ↦ rw t (s, (sd, h))
    | inr t ↦ rw t (sd, insert_entry-All P e es s h)
  ]

  pub sort_entries-All :
      (P : Entry → Type 0) (es : List Entry) → All P es → All P (sort_entries f es)
  unfolding sort_entries
  sort_entries-All P [] h = tt
  sort_entries-All P (e ∷ es) (s, h) =
      insert_entry-All P e (sort_entries f es) s (sort_entries-All P es h)
