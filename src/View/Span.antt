-- ===== src/View/Span.antt =====
-- view/src/view/span.rs: a run of styled text.
use lusid.Base.{String}
use lusid.View.Text.{TextStyle, plain_style}

pub record Span : Type 0 where
  pub content : String
  pub style : TextStyle

-- `Span::new`, and `From<&str>` and `From<String>`
unfoldable pub new : String → Span
new content = record { content = content; style = plain_style }

unfoldable pub new_styled : String → TextStyle → Span
new_styled content style = record { content = content; style = style }

unfoldable pub with_style : Span → TextStyle → Span
with_style s style = record s { style = style }

-- `Display`
unfoldable pub display : Span → String
display s = s.content
