-- ===== src/Params/Value.antt =====
-- The values the language of plans hands over, of which params/src/lib.rs and params/src/parse.rs
-- use the variants, the spans and the ordered maps, and what they ask of numbers and paths.
use lusid.Base.{ℕ, Option, none, some, Bool, true, false, ite, String, string_eq}

-- What the code asks of the values' crate and of the platform's paths.
pub record Platform : Type 1 where
  pub Number : Type 0
  pub Function : Type 0
  pub to_u32 : Number → Option ℕ
  pub is_absolute : String → Bool
  pub parent : String → Option String
  pub join : String → String → String

-- The source is empty for a value that stands in no file.
pub record Span : Type 0 where
  pub source : String
  pub start : ℕ
  pub end : ℕ

pub record Spanned {ℓ} (A : Type ℓ) : Type ℓ where
  pub inner : A
  pub span : Span

abbrev pub spanned {ℓ} : {A : Type ℓ} → A → Span → Spanned A
spanned inner span = record { inner = inner; span = span }

-- `Values` is a `Vec<Spanned<Value>>`, `ValueObject` an `IndexMap<String, Spanned<Value>>` as its
-- entries in their order.
mutual
  pub data Value (p : Platform) : Type 0 where
    null : Value p
    boolean : Bool → Value p
    string : String → Value p
    number : p.Number → Value p
    list : Values p → Value p
    object : ValueObject p → Value p
    function : p.Function → Value p
    host_path : String → Value p
    target_path : String → Value p

  pub data Values (p : Platform) : Type 0 where
    empty_list : Values p
    item : Value p → Span → Values p → Values p

  pub data ValueObject (p : Platform) : Type 0 where
    empty_object : ValueObject p
    entry : String → Value p → Span → ValueObject p → ValueObject p

-- An entry and the map without it, the last one in its place.
abbrev pub Removed : Platform → Type 0
Removed p = Spanned (Value p) × ValueObject p

module _ {p : Platform} where
  unfoldable pub get : String → ValueObject p → Option (Spanned (Value p))
  get key empty_object = none
  get key (entry other value span entries) =
      ite (string_eq.dec other key) (some (spanned value span)) (get key entries)

  unfoldable pub contains_key : String → ValueObject p → Bool
  contains_key key empty_object = false
  contains_key key (entry other value span entries) =
      ite (string_eq.dec other key) true (contains_key key entries)

  -- A key that is there keeps its place.
  unfoldable pub insert : String → Spanned (Value p) → ValueObject p → ValueObject p
  insert key new empty_object = entry key new.inner new.span empty_object
  insert key new (entry other value span entries) =
      ite (string_eq.dec other key) (entry other new.inner new.span entries)
        (entry other value span (insert key new entries))

  unfoldable pub push_under : String → Value p → Span → ValueObject p → ValueObject p
  push_under key value span empty_object = entry key value span empty_object
  push_under key value span (entry first first_value first_span entries) =
      entry first first_value first_span (entry key value span entries)

  -- The last entry moved before the others.
  unfoldable pub last_first : ValueObject p → ValueObject p
  last_first empty_object = empty_object
  last_first (entry key value span entries) = push_under key value span (last_first entries)

  unfoldable pub keep_before : String → Value p → Span → Option (Removed p) → Option (Removed p)
  keep_before key value span none = none
  keep_before key value span (some (found, entries)) = some (found, entry key value span entries)

  unfoldable pub swap_remove : String → ValueObject p → Option (Removed p)
  swap_remove key empty_object = none
  swap_remove key (entry other value span entries) =
      ite (string_eq.dec other key) (some (spanned value span, last_first entries))
        (keep_before other value span (swap_remove key entries))
