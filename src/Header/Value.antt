-- ===== src/Header/Value.antt =====
-- header.rs: the value and the comment of a card, and strings over CONTINUE cards.
use rustfits.Prelude.{
  ℕ, ◌-◌, ◌==◌, leb, if◌then◌else◌, Bool, true, false, not, ◌&&◌, List, [], ◌∷◌, ◌++◌, Option, none,
  some, length, take, drop,
}
use rustfits.Header.Text.{codes, is_empty, trim, trim_end, same, starts_with, ends_with, pop}

abbrev pub quote : ℕ
quote = 39

abbrev pub amp : ℕ
amp = 38

-- What stands before the first `/` outside quotes, and what stands behind it.
unfoldable pub split_loop : Bool → List ℕ → List ℕ × Option (List ℕ)
split_loop in_string [] = ([], none)
split_loop in_string (c ∷ s) =
    let rest = split_loop (if c == quote then not in_string else in_string) s in
    if (c == 47) && not in_string then ([], some s) else (c ∷ rest.0, rest.1)

abbrev pub comment_of : Option (List ℕ) → List ℕ
comment_of none = []
comment_of (some s) = trim s

unfoldable pub split_value_comment : List ℕ → List ℕ × List ℕ
split_value_comment value_part =
    let parts = split_loop false value_part in (trim parts.0, comment_of parts.1)

-- `inner.replace("''", "'")`, which keeps a quote until it has seen the next byte.
unfoldable pub unescape : Bool → List ℕ → List ℕ
unescape true [] = quote ∷ []
unescape false [] = []
unescape true (c ∷ s) =
    let rest = unescape false s in if c == quote then quote ∷ rest else quote ∷ c ∷ rest
unescape false (c ∷ s) = let rest = unescape (c == quote) s in if c == quote then rest else c ∷ rest

abbrev pub inner : List ℕ → List ℕ
inner raw = take (length raw - 2) (drop 1 raw)

unfoldable pub extract_fits_string : List ℕ → List ℕ
extract_fits_string raw = trim_end (unescape false (inner raw))

abbrev pub is_quoted : List ℕ → Bool
is_quoted raw = starts_with (quote ∷ []) raw && (ends_with quote raw && leb 2 (length raw))

abbrev pub join_comment : List ℕ → List ℕ → List ℕ
join_comment comment more =
    if is_empty more then comment else if is_empty comment then more else comment ++ 32 ∷ more

-- The loop over the cards behind the first.
unfoldable pub continue_loop : List (List ℕ) → List ℕ → List ℕ → List ℕ × List ℕ
continue_loop [] s comment = (s, comment)
continue_loop (card ∷ cards) s comment =
    let next_card = trim_end card in
    let parts = split_value_comment (drop 8 next_card) in
    let more =
      continue_loop cards (pop s ++ extract_fits_string parts.0) (join_comment comment parts.1) in
    if ends_with amp s && (starts_with (codes "CONTINUE") next_card && is_quoted parts.0)
    then more
    else (s, comment)

-- The Python value. What is no string and no truth value is read as a complex number, an integer or
-- a float where the text is one.
pub data Value : Type 0 where
  undefined : Value
  text : List ℕ → Value
  logical : Bool → Value
  plain : List ℕ → Value

unfoldable pub parse_value_with_continue : List (List ℕ) → List ℕ → Value × List ℕ
parse_value_with_continue after value_part =
    let parts = split_value_comment value_part in
    let raw = parts.0 in
    let whole = continue_loop after (extract_fits_string raw) parts.1 in
    if is_empty raw
    then (undefined, parts.1)
    else if is_quoted raw
    then (text whole.0, whole.1)
    else if same raw (codes "T")
    then (logical true, parts.1)
    else if same raw (codes "F")
    then (logical false, parts.1)
    else (plain raw, parts.1)
