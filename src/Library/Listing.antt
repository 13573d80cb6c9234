-- ===== src/Library/Listing.antt =====
-- The listing of a directory, `list_dir` of backend/src/library.rs.
use ryu_subtitles.Prelude.{
  ℕ, ◌≡◌, ◌⊎◌, ◌↔◌, inl, inr, Bool, true, false, not, refl, sym, ◌∙◌, Option, none, some, List, [],
  ◌∷◌, ◌++◌, ok, err, arith, All-append, Bool-cases, Result, ok_or, bind_passed, ok-injective,
  subst, if◌then◌else◌,
}
use ryu_subtitles.Text.{Text}
use ryu_subtitles.Library.{
  Files, DirEntry, Entry, PathError, missing, outside_roots, contained, is_media_path, entry,
  list_visible, list_entry, list_entries, name_le, insert_entry, sort_entries, list_dir,
}
use ryu_subtitles.Library.Shown.{
  Member, All-Member, Member-left, Member-right, Shows, Listed, list_entries-Listed,
  sort_entries-All,
}

module _ (f : Files) where
  -- What is shown is listed, among the directories or among the files.
  shown_entry :
      (d : DirEntry) (e : Entry) (b : Bool) (size ms : Option ℕ)
      → Shows f d e
      → e.is_dir ≡ b
      → e.size ≡ size
      → e.modified_ms ≡ ms
      → e ≡ entry f d b size ms
  shown_entry d e b size ms s h k l = cc (s.name, s.path)

  shown_size :
      (d : DirEntry) (e : Entry) (b : Bool) (len : ℕ)
      → (s : Shows f d e) → e.is_dir ≡ b
      → s.length ≡ len
      → e.size ≡ (if b then none else some len)
  shown_size d e b len s h k = s.size ∙ cc

  read_metadata :
      (a b : Bool) (k l : ℕ) (m n : Option ℕ)
      → ◌≡◌ {A = Option (Bool × ℕ × Option ℕ)} (some (a, k, m)) (some (b, l, n))
      → (a ≡ b) × (k ≡ l) × (m ≡ n)
  read_metadata a b k l m n h = (cc, cc, cc)

  list_visible-Member :
      (d : DirEntry) (e : Entry) (m : Option (Bool × ℕ × Option ℕ))
      → (s : Shows f d e)
      → ◌≡◌ {A = Option (Bool × ℕ × Option ℕ)} (some (e.is_dir, s.length, e.modified_ms)) m
      → Member e (list_visible f d m).0 ⊎ Member e (list_visible f d m).1
  unfolding list_visible
  list_visible-Member d e none s h = cc
  list_visible-Member d e (some (true, len, ms)) s h =
      let (dir, same, time) = read_metadata _ _ _ _ _ _ h in
      let size : e.size ≡ none = shown_size d e true len s dir same in
      inl (inl (shown_entry d e true none ms s dir size time))
  list_visible-Member d e (some (false, len, ms)) s h =
      let (dir, same, time) = read_metadata _ _ _ _ _ _ h in
      let media : is_media_path f d.path ≡ true = ground (arith, s.readable) in
      let size : e.size ≡ some len = shown_size d e false len s dir same in
      rw media (inr (inl (shown_entry d e false (some len) ms s dir size time)))

  list_entry-Member :
      (d : DirEntry) (e : Entry)
      → Shows f d e
      → Member e (list_entry f d).0 ⊎ Member e (list_entry f d).1
  unfolding list_entry
  list_entry-Member d e s = rw s.visible (list_visible-Member d e d.metadata s (sym s.metadata))

  list_entries-Member :
      (d : DirEntry) (e : Entry) (ds : List DirEntry)
      → Shows f d e
      → Member d ds
      → Member e (list_entries f ds).0 ⊎ Member e (list_entries f ds).1
  unfolding list_entries
  list_entries-Member d e [] s m = absurd m
  list_entries-Member d e (c ∷ ds) s (inl q) = elim (list_entry-Member d e s) [
    | inl m ↦ inl (Member-left e _ _ (subst (λ x. Member e (list_entry f x).0) q m))
    | inr m ↦ inr (Member-left e _ _ (subst (λ x. Member e (list_entry f x).1) q m))
  ]
  list_entries-Member d e (c ∷ ds) s (inr m) = elim (list_entries-Member d e ds s m) [
    | inl k ↦ inl (Member-right e _ _ k)
    | inr k ↦ inr (Member-right e _ _ k)
  ]

  inserted_here : (a : Entry) (es : List Entry) → Member a (insert_entry f a es)
  unfolding insert_entry
  inserted_here a [] = inl refl
  inserted_here a (b ∷ es) = elim (Bool-cases (name_le f a b)) [
    | inl t ↦ rw t (inl refl)
    | inr t ↦ rw t (inr (inserted_here a es))
  ]

  still_there : (a e : Entry) (es : List Entry) → Member e es → Member e (insert_entry f a es)
  unfolding insert_entry
  still_there a e [] m = absurd m
  still_there a e (b ∷ es) m = elim (Bool-cases (name_le f a b)) [
    | inl t ↦ rw t (inr m)
    | inr t ↦ rw t (elim m [ inl q ↦ inl q | inr k ↦ inr (still_there a e es k) ])
  ]

  sort_entries-Member : (e : Entry) (es : List Entry) → Member e es → Member e (sort_entries f es)
  unfolding sort_entries
  sort_entries-Member e [] m = absurd m
  sort_entries-Member e (a ∷ es) (inl q) =
      subst (λ x. Member x (insert_entry f a (sort_entries f es))) (sym q)
        (inserted_here a (sort_entries f es))
  sort_entries-Member e (a ∷ es) (inr m) =
      still_there a e (sort_entries f es) (sort_entries-Member e es m)

  past :
      {A : Type 0} (b : Bool) (e : PathError) (r : Result PathError A) (a : A)
      → (if b then err e else r) ≡ ok a
      → (b ≡ false) × (r ≡ ok a)
  past true e r a h = cc
  past false e r a h = (refl, h)

  listed_once :
      (ds : List DirEntry) (e : Entry)
      → Member e (sort_entries f (list_entries f ds).0 ++ sort_entries f (list_entries f ds).1)
        ↔ Listed f ds e
  listed_once ds e =
      let (a, b) = list_entries-Listed f ds in
      (
        All-Member (Listed f ds) e _ (
            All-append (Listed f ds) _ _ (sort_entries-All f (Listed f ds) _ a)
              (sort_entries-All f (Listed f ds) _ b)),
        λ ((d, m, s) : Listed f ds e). elim (list_entries-Member d e ds s m) [
          | inl k ↦ Member-left e _ _ (sort_entries-Member e _ k)
          | inr k ↦ Member-right e _ _ (sort_entries-Member e _ k)
        ],
      )

  -- A directory that is listed lies, in its canonical form, in a containment root, and what is listed
  -- are exactly the entries that the picker may show of those that reading it gave: the text of the
  -- name has no dot in front, and the entry is, by its metadata, a directory, or a file whose path
  -- has the extension of a media file; the name and the path are the texts of the entry's own, the
  -- kind and the time are the metadata's, and so is the size of a file.
  pub list_dir_sound :
      (dir : Text) (es : List Entry) (e : Entry)
      → list_dir f dir ≡ ok es
      → (canonical : Text) × (ds : List DirEntry) × (f.canonicalize dir ≡ some canonical)
        × (contained f canonical ≡ true)
        × (f.read_dir canonical ≡ some ds)
        × (Member e es ↔ Listed f ds e)
  unfolding list_dir
  list_dir_sound dir es e h =
      let (c, q, g) = bind_passed (ok_or (f.canonicalize dir) missing) _ h in
      let (inside, g') = past (not (contained f c)) outside_roots _ es g in
      let (is_dir, g'') = past (not (f.is_dir c)) missing _ es g' in
      let (ds, r, done) = bind_passed (ok_or (f.read_dir c) missing) _ g'' in
      (
        c,
        ds,
        ground arith,
        ground arith,
        ground arith,
        subst (λ x. Member e x ↔ Listed f ds e) (ok-injective _ es done) (listed_once ds e),
      )
