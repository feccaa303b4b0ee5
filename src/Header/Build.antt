-- ===== src/Header/Build.antt =====
-- header.rs: the cards of a string value.
use rustfits.Prelude.{
  ℕ, zero, suc, ◌-◌, ◌==◌, ltb, leb, if◌then◌else◌, min, ◌&&◌, List, [], ◌∷◌, ◌++◌, length, take,
  drop, replicate, get_or, Outcome, ok, err,
}
use rustfits.Header.Text.{codes, is_empty}
use rustfits.Header.Value.{quote}

abbrev pub spaces : ℕ → List ℕ
spaces n = replicate n 32

-- `format!("{:<8}", s)`
abbrev pub left_8 : List ℕ → List ℕ
left_8 s = s ++ spaces (8 - length s)

unfoldable pub pad_to_card : List ℕ → List ℕ
pad_to_card s = take 80 (s ++ spaces (80 - length s))

-- `value.replace('\'', "''")`
unfoldable pub escape : List ℕ → List ℕ
escape [] = []
escape (c ∷ s) = let rest = escape s in if c == quote then quote ∷ quote ∷ rest else c ∷ rest

unfoldable pub card_string : List ℕ → List ℕ → List ℕ → List ℕ
card_string key value comment =
    let head = left_8 key ++ (codes "= '" ++ (left_8 (escape value) ++ quote ∷ [])) in
    pad_to_card (
      if is_empty comment
      then head
      else if leb (length head) 31
      then head ++ (spaces (31 - length head) ++ (codes "/ " ++ comment))
      else head ++ (codes " / " ++ comment))

pub data HeaderError : Type 0 where
  comment_too_long empty_keyword hierarch_keyword invalid_character : HeaderError

-- A split never parts the two quotes of an escaped one.
unfoldable pub back_off : List ℕ → ℕ → ℕ
back_off rest zero = 0
back_off rest (suc n) =
    let less = back_off rest n in
    if ltb (suc n) (length rest) && ((get_or rest n 0 == quote) && (get_or rest (suc n) 0 == quote))
    then less
    else suc n

unfoldable pub take_part : ℕ → List ℕ → ℕ
take_part max_last rest =
    let shorter = back_off rest (min (length rest - max_last) 67) in
    if shorter == 0 then 2 else shorter

abbrev pub first_card : List ℕ → List ℕ → List ℕ
first_card key part = pad_to_card (left_8 key ++ (codes "= '" ++ (part ++ codes "&'")))

abbrev pub middle_card : List ℕ → List ℕ
middle_card part = pad_to_card (codes "CONTINUE  '" ++ (part ++ codes "&'"))

abbrev pub last_card : List ℕ → List ℕ → List ℕ
last_card part comment = pad_to_card (
    if is_empty comment
    then codes "CONTINUE  '" ++ (part ++ codes "'")
    else codes "CONTINUE  '" ++ (part ++ (codes "' / " ++ comment)))

-- The turns behind the first. A turn takes at least one byte, so as many as there are bytes are
-- enough.
unfoldable pub chunk_loop : ℕ → ℕ → List ℕ → List ℕ → List (List ℕ)
chunk_loop zero max_last comment rest = []
chunk_loop (suc fuel) max_last comment [] = []
chunk_loop (suc fuel) max_last comment (c ∷ s) =
    let rest = c ∷ s in
    let n = take_part max_last rest in
    let more = chunk_loop fuel max_last comment (drop n rest) in
    if leb (length rest) max_last
    then last_card rest comment ∷ []
    else middle_card (take n rest) ∷ more

abbrev pub max_last_payload : List ℕ → ℕ
max_last_payload comment = if is_empty comment then 68 else 65 - length comment

unfoldable pub build_string_value_cards :
    List ℕ → List ℕ → List ℕ → Outcome HeaderError (List (List ℕ))
build_string_value_cards key value comment =
    let escaped = escape value in
    let max_last = max_last_payload comment in
    let n = take_part max_last escaped in
    if leb 65 (length comment)
    then err comment_too_long
    else if leb (length escaped) max_last
    then ok (card_string key value comment ∷ [])
    else ok (
        first_card key (take n escaped)
        ∷ chunk_loop (length escaped) max_last comment (drop n escaped))
