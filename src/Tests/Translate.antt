-- ===== src/Tests/Translate.antt =====
-- The theorems on the translation pass and on the languages at concrete inputs.
use ryu_subtitles.Prelude.{All, arith, ℕ, ◌≡◌, refl, false, none, some, List, [], ◌∷◌, map}
use ryu_subtitles.Text.{codes, trim, trim_start, trim_end, is_whitespace, keep_end}
use ryu_subtitles.Cues.Model.{Cue, Layout}
use ryu_subtitles.Cues.Normalize.{is_spoken}
use ryu_subtitles.Cues.Render.{render_srt}
use ryu_subtitles.Cues.Render.Shown.{Says, numbered}
use ryu_subtitles.Languages.{Language}
use ryu_subtitles.Translate.Reply.{
  get, parse_reply, parse_lines, parse_line, read_parts, read_text, lines, numbered_line,
  split_lines, cons_line, strip_cr, split_once, cons_head, trim_bullets, is_bullet, parse_usize,
  parse_digits, render_batch,
}
use ryu_subtitles.Translate.Reply.Lines.{parse_line-numbered_line}
use ryu_subtitles.Translate.Pass.{
  Outside, translate_cues, batches_loop, chunks, answer_batch, finish_batch, complete, accepted,
  retry, batch_answers, fill, set_translated,
}
use ryu_subtitles.Translate.Pass.Count.{
  translated_count, translate_cues-count, render_srt-translate_cues,
}
use ryu_subtitles.Translate.Pass.Keeps.{measured, translate_cues-measured}

-- A gateway that answers every message alike; the world counts its calls.
abbrev gateway : Outside
gateway = record {
  World = ℕ;
  send = λ user n. (some (200, codes "1⟩ Hola.\n2⟩ Adiós."), n);
  content_of = λ body. some body;
  should_cancel = λ n. (false, n);
  on_progress = λ done total n. n;
}

abbrev hello_goodbye : List Cue
hello_goodbye =
    record { start_ms = 0; end_ms = 900; text = codes "Hello."; translated = none }
    ∷ record { start_ms = 1000; end_ms = 1900; text = codes "Goodbye."; translated = none }
    ∷ []

translate_cues-measured_example :
    map measured (translate_cues gateway hello_goodbye 0).1 ≡ map measured hello_goodbye
translate_cues-measured_example = translate_cues-measured gateway hello_goodbye 0

abbrev english : Language
english = record { code = codes "en"; name = codes "English"; native = codes "English" }

hello_goodbye-Says : All Says hello_goodbye
unfolding is_spoken trim trim_start trim_end is_whitespace
hello_goodbye-Says =
    (record { source = refl; target = refl }, (record { source = refl; target = refl }, tt))

-- The pass ends with both lines translated.
both_translated : (translate_cues gateway hello_goodbye 0).0 ≡ some 2
unfolding translate_cues batches_loop chunks answer_batch finish_batch complete accepted retry
    batch_answers fill set_translated get parse_reply parse_lines parse_line read_parts read_text
    lines split_lines cons_line strip_cr split_once cons_head trim_bullets is_bullet parse_usize
    parse_digits trim trim_start trim_end keep_end is_whitespace render_batch
both_translated = refl

translate_cues-count_example : 2 ≡ translated_count (translate_cues gateway hello_goodbye 0).1
translate_cues-count_example =
    translate_cues-count gateway hello_goodbye 0 2 (refl, (refl, tt)) both_translated

render_srt-translate_cues_example :
    render_srt (translate_cues gateway hello_goodbye 0).1 Layout.source
    ≡ numbered Layout.source 1 (translate_cues gateway hello_goodbye 0).1
render_srt-translate_cues_example =
    render_srt-translate_cues gateway hello_goodbye 0 Layout.source hello_goodbye-Says

parse_line_example :
    parse_line (numbered_line 12 (codes " Hola. ")) ≡ some (12, trim (codes " Hola. "))
unfolding trim trim_start trim_end keep_end is_whitespace
parse_line_example = parse_line-numbered_line 12 (codes " Hola. ") (omega arith) refl
