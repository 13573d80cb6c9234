-- ===== src/Library.antt =====
-- backend/src/library.rs, with `is_media_path` of backend/src/media.rs and backend/src/paths.rs. The
-- file system and `std::path` are a parameter. A path is a sequence of numbers: its characters, and
-- what stands for the bytes that are none, which `to_string_lossy` replaces. `none` is an `Err`.
pub mod Gate
pub mod Shown
pub mod Listing
use ryu_subtitles.Prelude.{
  ℕ, Bool, true, false, not, ◌&&◌, ◌||◌, Option, none, some, List, [], ◌∷◌, ◌++◌, ltb, ◌==◌,
  if◌then◌else◌, Result, ok, err, ◌>>=◌, ok_or, map,
}
use ryu_subtitles.Text.{Text, codes, trim, is_empty, starts_with, to_ascii_lowercase, contains_text}

pub data TargetOs : Type 0 where
  macos linux other : TargetOs

-- One entry of `read_dir` with its metadata, `none` where the metadata cannot be read.
pub record DirEntry : Type 0 where
  pub path : Text
  pub file_name : Text
  -- Whether it is a directory, its length, and its mtime in milliseconds since 1970.
  pub metadata : Option (Bool × ℕ × Option ℕ)

pub record Files : Type 0 where
  pub target_os : TargetOs
  -- `Path::to_string_lossy`, and that of a name in a path.
  pub to_string_lossy : Text → Text
  pub canonicalize : Text → Option Text
  pub is_file : Text → Bool
  pub is_dir : Text → Bool
  -- The entries that `flatten` keeps.
  pub read_dir : Text → Option (List DirEntry)
  -- `Path::starts_with`, which compares whole components.
  pub under : Text → Text → Bool
  pub join_path : Text → Text → Text
  -- `extension` with its `to_str`.
  pub file_extension : Text → Option Text
  pub file_stem : Text → Option Text
  pub with_file_name : Text → Text → Text
  pub to_lowercase : Text → Text
  pub home_dir : Option Text
  pub download_dir : Option Text
  pub desktop_dir : Option Text
  pub document_dir : Option Text
  -- `ryu_sidecar_runtime::ryu_dir()` and `service_dir`.
  pub ryu_dir : Text
  pub service_dir : Text → Text → Text

pub record Entry : Type 0 where
  pub name : Text
  pub path : Text
  pub is_dir : Bool
  pub size : Option ℕ
  pub modified_ms : Option ℕ

pub record Root : Type 0 where
  pub name : Text
  pub path : Text

pub data PathError : Type 0 where
  outside_roots missing not_media : PathError

-- `Display` of `PathError`.
unfoldable pub message : PathError → Text
message outside_roots =
    codes
      "that path is outside the folders this app can read (your home folder and the Ryu data folder)"
message missing = codes "that file no longer exists"
message not_media = codes "that file is not a video or audio file this app can read"

abbrev pub media_extensions : List Text
media_extensions =
    codes "mp4"
    ∷ codes "m4v"
    ∷ codes "mov"
    ∷ codes "mkv"
    ∷ codes "webm"
    ∷ codes "avi"
    ∷ codes "m4a"
    ∷ codes "mp3"
    ∷ codes "wav"
    ∷ codes "flac"
    ∷ codes "aac"
    ∷ codes "ogg"
    ∷ codes "oga"
    ∷ codes "opus"
    ∷ codes "caf"
    ∷ codes "aiff"
    ∷ []

abbrev pub or_else : Option Text → Text → Text
or_else (some t) u = t
or_else none u = u

-- `String`'s order on lowered names, by code points, which is the order of the bytes in UTF-8.
unfoldable pub text_le : Text → Text → Bool
text_le [] t = true
text_le (c ∷ s) [] = false
text_le (c ∷ s) (d ∷ t) = ltb c d || (c == d && text_le s t)

module _ (f : Files) where
  -- `map(to_string_lossy)`.
  abbrev pub lossy : Option Text → Option Text
  lossy none = none
  lossy (some name) = some (f.to_string_lossy name)

  unfoldable pub is_media_path : Text → Bool
  is_media_path path = elim (f.file_extension path) [
    | none ↦ false
    | some e ↦ contains_text (to_ascii_lowercase e) media_extensions
  ]

  unfoldable pub shadow_clips_dir : Text
  shadow_clips_dir =
      f.join_path (f.join_path (f.service_dir f.ryu_dir (codes "shadow")) (codes "media"))
        (codes "clips")

  -- The closure `add` of `roots`.
  unfoldable pub add_root : Text → Option Text → List Root
  add_root name none = []
  add_root name (some path) =
      if f.is_dir path then record { name = name; path = f.to_string_lossy path } ∷ [] else []

  abbrev pub in_home : Text → Option Text
  in_home name = elim f.home_dir [ none ↦ none | some h ↦ some (f.join_path h name) ]

  unfoldable pub roots : List Root
  roots =
      add_root (codes "Movies") (in_home (codes "Movies"))
      ++ add_root (codes "Videos") (in_home (codes "Videos"))
      ++ add_root (codes "Downloads") f.download_dir
      ++ add_root (codes "Desktop") f.desktop_dir
      ++ add_root (codes "Documents") f.document_dir
      ++ add_root (codes "Ryu clips") (some shadow_clips_dir)
      ++ add_root (codes "Home") f.home_dir

  abbrev pub drives : TargetOs → List Text
  drives macos = codes "/Volumes" ∷ []
  drives linux = codes "/media" ∷ codes "/mnt" ∷ []
  drives other = []

  abbrev pub home_root : Option Text → List Text
  home_root none = []
  home_root (some home) = home ∷ []

  unfoldable pub containment_roots : List Text
  containment_roots = home_root f.home_dir ++ f.ryu_dir ∷ drives f.target_os

  unfoldable pub under_any : Text → List Text → Bool
  under_any candidate [] = false
  under_any candidate (root ∷ roots) =
      f.under candidate (or_else (f.canonicalize root) root) || under_any candidate roots

  unfoldable pub contained : Text → Bool
  contained candidate = under_any candidate containment_roots

  -- The tests on the canonical path.
  unfoldable pub check_canonical : Text → Result PathError Text
  check_canonical canonical =
      if not (f.is_file canonical)
      then err missing
      else if not (contained canonical)
      then err outside_roots
      else if not (is_media_path canonical)
      then err not_media
      else ok canonical

  unfoldable pub validate_source : Text → Result PathError Text
  validate_source path =
      let raw = trim path in
      if is_empty raw
      then err missing
      else (do canonical ← ok_or (f.canonicalize raw) missing; check_canonical canonical)

  abbrev pub entry : DirEntry → Bool → Option ℕ → Option ℕ → Entry
  entry e is_dir size modified_ms = record {
    name = f.to_string_lossy e.file_name;
    path = f.to_string_lossy e.path;
    is_dir = is_dir;
    size = size;
    modified_ms = modified_ms;
  }

  -- An entry that is not hidden and has metadata, among the directories or among the files.
  unfoldable pub list_visible : DirEntry → Option (Bool × ℕ × Option ℕ) → List Entry × List Entry
  list_visible e none = ([], [])
  list_visible e (some (is_dir, len, modified_ms)) =
      if is_dir
      then (entry e true none modified_ms ∷ [], [])
      else if is_media_path e.path
      then ([], entry e false (some len) modified_ms ∷ [])
      else ([], [])

  unfoldable pub list_entry : DirEntry → List Entry × List Entry
  list_entry e =
      if starts_with (f.to_string_lossy e.file_name) (codes ".")
      then ([], [])
      else list_visible e e.metadata

  unfoldable pub list_entries : List DirEntry → List Entry × List Entry
  list_entries [] = ([], [])
  list_entries (e ∷ es) =
      let one = list_entry e in let rest = list_entries es in (one.0 ++ rest.0, one.1 ++ rest.1)

  unfoldable pub name_le : Entry → Entry → Bool
  name_le a b = text_le (f.to_lowercase a.name) (f.to_lowercase b.name)

  unfoldable pub insert_entry : Entry → List Entry → List Entry
  insert_entry a [] = a ∷ []
  insert_entry a (b ∷ bs) = if name_le a b then a ∷ b ∷ bs else b ∷ insert_entry a bs

  -- `sort_by`, which is stable.
  unfoldable pub sort_entries : List Entry → List Entry
  sort_entries [] = []
  sort_entries (a ∷ rest) = insert_entry a (sort_entries rest)

  unfoldable pub list_dir : Text → Result PathError (List Entry)
  list_dir dir = do
    canonical ← ok_or (f.canonicalize dir) missing
    if not (contained canonical)
        then err outside_roots
        else if not (f.is_dir canonical)
        then err missing
        else (do
          read ← ok_or (f.read_dir canonical) missing
          ok (sort_entries (list_entries read).0 ++ sort_entries (list_entries read).1))

  unfoldable pub sidecar_output_path : Text → Text → Text → Text
  sidecar_output_path source language_code extension =
      let stem = or_else (lossy (f.file_stem source)) (codes "subtitles") in
      let code = trim language_code in
      let name =
        if is_empty code
        then stem ++ codes "." ++ extension
        else stem ++ codes "." ++ code ++ codes "." ++ extension in
      f.with_file_name source name
