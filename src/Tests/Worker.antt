-- ===== src/Tests/Worker.antt =====
-- The theorems on the worker's task at concrete inputs.
use ryu_subtitles.Prelude.{◌≡◌, refl, All, true, false, none, some, [], ◌∷◌, err}
use ryu_subtitles.Text.{codes, text_eq}
use ryu_subtitles.Store.Model.{Row, Db}
use ryu_subtitles.Store.Rows.{find_row}
use ryu_subtitles.Store.Jobs.{is_running}
use ryu_subtitles.Store.Queue.{is_queued}
use ryu_subtitles.Tests.Store.{plain, read_only, stuck}
use ryu_subtitles.Tests.Library.{disk}
use ryu_subtitles.Tests.Engine.{around, job, world}
use ryu_subtitles.Engine.Model.{World, Around}
use ryu_subtitles.Engine.Run.{settle_run}
use ryu_subtitles.Engine.Worker.{run_worker, settle_run-ended}
use ryu_subtitles.Engine.Worker.ReadOnly.{others, run_worker-read_only}

abbrev deleting : Around plain
deleting = around (λ n db. record db { jobs = [] })

settle_run-ended_example : (settle_run deleting job (err (codes "No file.")) world).log ≡ []
settle_run-ended_example = settle_run-ended deleting job (err (codes "No file.")) world tt

abbrev without_key : Around read_only
without_key = record {
  files = disk;
  meddle = λ n db. db;
  now = λ n. n;
  later = λ n. n;
  env = λ name. none;
  is_alphabetic = λ c. true;
  Wav = Unit;
  decode = λ path. [];
  transcribe = λ n wav engine. err (codes "no engine");
  post = λ config system user n. none;
  content_of = λ body. some body;
  write_file = λ path contents n. true;
  store_message = λ e. codes "database";
  writing_share = 98;
}

abbrev waiting : Row read_only
waiting = record stuck { id = codes "w"; status = codes "queued" }

abbrev stuck_world : World read_only
stuck_world = record {
  db = record { jobs = stuck ∷ waiting ∷ []; settings = none };
  time = 0;
  log = [];
}

run_worker-read_only_example :
    (started : Db read_only) × All (λ q. is_running read_only q ≡ false) started.jobs
    × (find_row read_only (codes "w") started.jobs ≡ some waiting)
    × ((run_worker without_key 5 stuck_world).db ≡ others without_key 5 1 started)
    × ((run_worker without_key 5 stuck_world).log ≡ [])
unfolding find_row is_queued text_eq
run_worker-read_only_example =
    run_worker-read_only without_key 5 stuck_world (codes "w") waiting refl refl refl
