-- ===== src/Tests/Library.antt =====
-- The theorems on the path gate at concrete inputs, on a file system with one film.
use ryu_subtitles.Prelude.{◌≡◌, ◌↔◌, refl, List, true, false, none, some, [], ◌∷◌, ◌++◌}
use ryu_subtitles.Text.{
  Text, codes, trim, trim_start, trim_end, keep_end, is_whitespace, text_eq, starts_with,
  contains_text, to_ascii_lowercase, ascii_lower,
}
use ryu_subtitles.Library.{
  Files, DirEntry, Entry, linux, contained, under_any, containment_roots, is_media_path,
  check_canonical, validate_source, list_visible, list_entry, list_entries, insert_entry,
  sort_entries, list_dir,
}
use ryu_subtitles.Library.Gate.{Readable, validate_source_sound}
use ryu_subtitles.Library.Shown.{Member, Listed}
use ryu_subtitles.Library.Listing.{list_dir_sound}

abbrev home : Text
home = codes "/h"

abbrev pub film : Text
film = codes "/h/d/a.mp4"

abbrev folder : Text
folder = codes "/h/d"

abbrev pub disk : Files
disk = record {
  target_os = linux;
  to_string_lossy = λ path. path;
  canonicalize = λ path. some path;
  is_file = λ path. text_eq path film;
  is_dir = λ path. text_eq path folder;
  read_dir = λ path. some (
      record { path = film; file_name = codes "a.mp4"; metadata = some (false, 9, none) }
      ∷ record { path = codes "/h/d/.x"; file_name = codes ".x"; metadata = some (true, 0, none) }
      ∷ []);
  under = λ path root. starts_with path (root ++ codes "/");
  join_path = λ path name. path ++ codes "/" ++ name;
  file_extension = λ path. some (codes "mp4");
  file_stem = λ path. some (codes "a");
  with_file_name = λ path name. folder ++ codes "/" ++ name;
  to_lowercase = λ s. s;
  home_dir = some home;
  download_dir = none;
  desktop_dir = none;
  document_dir = none;
  ryu_dir = codes "/r";
  service_dir = λ dir name. dir ++ codes "/" ++ name;
}

validate_source_example :
    (disk.canonicalize (trim (codes " /h/d/a.mp4")) ≡ some film) × Readable disk film
unfolding validate_source check_canonical contained under_any containment_roots is_media_path trim
    trim_start trim_end keep_end is_whitespace text_eq starts_with contains_text to_ascii_lowercase
    ascii_lower
validate_source_example = validate_source_sound disk (codes " /h/d/a.mp4") film refl

abbrev film_entry : Entry
film_entry = record {
  name = codes "a.mp4";
  path = film;
  is_dir = false;
  size = some 9;
  modified_ms = none;
}

list_dir_sound_example :
    (canonical : Text) × (ds : List DirEntry) × (disk.canonicalize folder ≡ some canonical)
    × (contained disk canonical ≡ true)
    × (disk.read_dir canonical ≡ some ds)
    × (Member film_entry (film_entry ∷ []) ↔ Listed disk ds film_entry)
unfolding list_dir list_visible list_entry list_entries insert_entry sort_entries contained
    under_any containment_roots is_media_path text_eq starts_with contains_text to_ascii_lowercase
    ascii_lower
list_dir_sound_example = list_dir_sound disk folder (film_entry ∷ []) film_entry refl
