-- ===== src/View/Paragraph.antt =====
-- view/src/view/paragraph.rs: a block of lines.
use lusid.Base.{Option, some, none, List, [], ◌∷◌, ◌++◌, map, String}
use lusid.View.Text.{TextStyle, plain_style, Alignment}
use Prim.Native.String.{◌++◌ as ◌<>◌}
use lusid.View.Line
use lusid.View.Line.{Line}

pub record Paragraph : Type 0 where
  pub lines : List Line
  pub alignment : Option Alignment
  pub style : TextStyle

unfoldable pub new : List Line → Paragraph
new lines = record { lines = lines; alignment = none; style = plain_style }

unfoldable pub new_styled : List Line → TextStyle → Paragraph
new_styled lines style = record { lines = lines; alignment = none; style = style }

unfoldable pub with_style : Paragraph → TextStyle → Paragraph
with_style p style = record p { style = style }

unfoldable pub with_alignment : Paragraph → Alignment → Paragraph
with_alignment p alignment = record p { alignment = some alignment }

unfoldable pub push_line : Paragraph → Line → Paragraph
push_line p l = record p { lines = p.lines ++ l ∷ [] }

-- `From<Vec<&str>>`
unfoldable pub from_texts : List String → Paragraph
unfolding new Line.from_text
from_texts texts = new (map Line.from_text texts)

unfoldable pub display_lines : List Line → String
unfolding Line.display
display_lines [] = ""
display_lines (l ∷ lines) = Line.display l <> ("\n" <> display_lines lines)

unfoldable pub display : Paragraph → String
unfolding display_lines
display p = display_lines p.lines
