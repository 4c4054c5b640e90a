-- ===== src/View.antt =====
-- view/src: styled text, its printed form, and trees of views.
pub mod Text
pub mod Span
pub mod Line
pub mod Paragraph
use lusid.Base.{Option, some, none, String}
use Prim.Native.String.{◌++◌ as ◌<>◌}

-- `Views` is the `children` of a `Fragment`.
mutual
  pub data View : Type 0 where
    fragment : Views → View
    span : Span.Span → View
    line : Line.Line → View
    paragraph : Paragraph.Paragraph → View

  pub data Views : Type 0 where
    nil : Views
    cons : View → Views → Views

-- `ViewTrees` is the `Vec<ViewTree>` of a branch.
mutual
  pub data ViewTree : Type 0 where
    branch : View → ViewTrees → ViewTree
    leaf : View → ViewTree

  pub data ViewTrees : Type 0 where
    no_trees : ViewTrees
    tree_and : ViewTree → ViewTrees → ViewTrees

unfoldable mutual
  pub display : View → String
  display (span s) = Span.display s
  display (fragment children) = display_all children
  display (line l) = Line.display l
  display (paragraph p) = Paragraph.display p

  pub display_all : Views → String
  display_all nil = ""
  display_all (cons child children) = display child <> display_all children

-- `Render` for what has a `Display`: `impl_display_render!`, on the printed text.
unfoldable pub render_text : String → View
unfolding Line.from_text
render_text text = line (Line.from_text text)

-- `Render` for `Option<T>`
unfoldable pub render_option : {T : Type 0} → (T → View) → Option T → View
render_option render (some inner) = render inner
render_option render none = fragment nil
