-- ===== src/View/Text.antt =====
-- view/src/view/text.rs: colours, alignment and the builder of styles.
use lusid.Base.{Bool, true, false, Option, some, none}

pub data Alignment : Type 0 where
  left center right : Alignment

pub data Color : Type 0 where
  black red green yellow blue magenta cyan gray dark_gray light_red light_green light_yellow : Color
  light_blue light_magenta light_cyan white : Color

pub record TextStyle : Type 0 where
  pub foreground_color : Option Color
  pub background_color : Option Color
  pub is_bold : Bool
  pub is_italic : Bool
  pub is_underlined : Bool
  pub underline_color : Option Color
  pub is_crossed_out : Bool

-- `Default`, and `TextStyle::new`
abbrev pub plain_style : TextStyle
plain_style = record {
  foreground_color = none;
  background_color = none;
  is_bold = false;
  is_italic = false;
  is_underlined = false;
  underline_color = none;
  is_crossed_out = false;
}

unfoldable pub fg : TextStyle → Color → TextStyle
fg s color = record s { foreground_color = some color }

unfoldable pub bg : TextStyle → Color → TextStyle
bg s color = record s { background_color = some color }

unfoldable pub bold : TextStyle → TextStyle
bold s = record s { is_bold = true }

unfoldable pub italic : TextStyle → TextStyle
italic s = record s { is_italic = true }

unfoldable pub underline : TextStyle → TextStyle
underline s = record s { is_underlined = true }

unfoldable pub with_underline_color : TextStyle → Color → TextStyle
with_underline_color s color = record s { underline_color = some color }

unfoldable pub crossed_out : TextStyle → TextStyle
crossed_out s = record s { is_crossed_out = true }
