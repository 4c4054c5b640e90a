-- ===== src/View/Line.antt =====
-- view/src/view/line.rs: a row of spans.
use lusid.Base.{Option, some, none, List, [], ◌∷◌, ◌++◌, String}
use lusid.View.Text.{TextStyle, plain_style, Alignment}
use Prim.Native.String.{◌++◌ as ◌<>◌}
use lusid.View.Span
use lusid.View.Span.{Span}

pub record Line : Type 0 where
  pub spans : List Span
  pub style : TextStyle
  pub alignment : Option Alignment

unfoldable pub new : List Span → Line
new spans = record { spans = spans; style = plain_style; alignment = none }

unfoldable pub new_styled : List Span → TextStyle → Line
new_styled spans style = record { spans = spans; style = style; alignment = none }

unfoldable pub with_style : Line → TextStyle → Line
with_style l style = record l { style = style }

unfoldable pub with_alignment : Line → Alignment → Line
with_alignment l alignment = record l { alignment = some alignment }

unfoldable pub push_span : Line → Span → Line
push_span l s = record l { spans = l.spans ++ s ∷ [] }

-- `From<&str>` and `From<String>`
unfoldable pub from_text : String → Line
unfolding new Span.new
from_text text = new (Span.new text ∷ [])

unfoldable pub display_spans : List Span → String
unfolding Span.display
display_spans [] = ""
display_spans (s ∷ spans) = Span.display s <> display_spans spans

unfoldable pub display : Line → String
unfolding display_spans
display l = display_spans l.spans
