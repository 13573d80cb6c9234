-- ===== src/Cues/Break/Wrap.antt =====
-- The words of `wrap` in backend/src/cues.rs.
use ryu_subtitles.Prelude.{
  ◌≡◌, refl, sym, ap, ap₂, ◌∙◌, List, [], ◌∷◌, ◌++◌, append-nil, append_assoc, arith, take, drop,
  take-append-drop, retain,
}
use ryu_subtitles.Text.{Text, codes, ink, is_whitespace, trim, join}
use ryu_subtitles.Text.Trim.{ink-append, ink-trim}
use ryu_subtitles.Cues.Model.{max_line_chars}
use ryu_subtitles.Cues.Break.{split_text, wrap}
use ryu_subtitles.Cues.Break.Parts.{ink_parts, split_text_sound}

-- A separator of white space adds no ink.
pub ink-join : (sep : Text) → ink sep ≡ [] → (ps : List Text) → ink (join ps sep) ≡ ink_parts ps
unfolding join ink_parts
ink-join sep h [] = unfold ink retain in refl
ink-join sep h (p ∷ []) = sym (append-nil (ink p))
ink-join sep h (p ∷ q ∷ ps) =
    ink-append p (sep ++ join (q ∷ ps) sep)
    ∙ ap (λ t. ink p ++ t)
        (ink-append sep (join (q ∷ ps) sep) ∙ ap₂ (λ s t. s ++ t) h (ink-join sep h (q ∷ ps)))

pub ink_parts-append : (ps qs : List Text) → ink_parts (ps ++ qs) ≡ ink_parts ps ++ ink_parts qs
unfolding ink_parts
ink_parts-append [] qs = refl
ink_parts-append (p ∷ ps) qs =
    ap (λ t. ink p ++ t) (ink_parts-append ps qs) ∙ sym (append_assoc (ink p) _ _)

ink_parts_single : (p : Text) → ink_parts (p ∷ []) ≡ ink p
unfolding ink_parts
ink_parts_single p = append-nil (ink p)

ink-space : ink (codes " ") ≡ []
unfolding ink retain is_whitespace
ink-space = refl

ink-newline : ink (codes "\n") ≡ []
unfolding ink retain is_whitespace
ink-newline = refl

-- Joining the lines from the second on with spaces, as `wrap` does with too many lines.
overflow_lines : List Text → List Text
overflow_lines lines = take 1 lines ++ join (drop 1 lines) (codes " ") ∷ []

ink-overflow_lines : (lines : List Text) → ink_parts (overflow_lines lines) ≡ ink_parts lines
unfolding overflow_lines
ink-overflow_lines lines =
    ink_parts-append (take 1 lines) (join (drop 1 lines) (codes " ") ∷ [])
    ∙ ap (λ t. ink_parts (take 1 lines) ++ t)
        (ink_parts_single (join (drop 1 lines) (codes " "))
          ∙ ink-join (codes " ") ink-space (drop 1 lines))
    ∙ sym (ink_parts-append (take 1 lines) (drop 1 lines))
    ∙ ap ink_parts (take-append-drop 1 lines)

-- Wrapping a text keeps all of its characters but white space, in their order.
pub ink-wrap : (text : Text) → ink (wrap text) ≡ ink text
unfolding wrap overflow_lines
ink-wrap text =
    let (same, parts, total) = split_text_sound (trim text) max_line_chars (omega arith) in
    let lines = split_text (trim text) max_line_chars in
    ground (
      arith,
      ink-trim text,
      same,
      ink-join (codes "\n") ink-newline lines,
      ink-join (codes "\n") ink-newline (overflow_lines lines),
      ink-overflow_lines lines,
    )
