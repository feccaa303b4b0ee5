-- ===== src/Header/Keyword.antt =====
-- header.rs: the keyword of a card, and its two forms.
use rustfits.Prelude.{
  ℕ, ◌-◌, ◌==◌, ltb, leb, if◌then◌else◌, Bool, true, false, not, ◌&&◌, ◌||◌, List, [], ◌∷◌, ◌++◌,
  Option, none, some, length, take, drop, map, Outcome, ok, err,
}
use rustfits.Header.Text.{codes, is_space, is_empty, trim, trim_end, same, starts_with, find}
use rustfits.Header.Build.{HeaderError, empty_keyword, hierarch_keyword, invalid_character}

abbrev pub contains : ℕ → List ℕ → Bool
contains c [] = false
contains c (d ∷ s) = (d == c) || contains c s

abbrev pub is_hierarch_key : List ℕ → Bool
is_hierarch_key key = ltb 8 (length key) || contains 32 key

-- `split_whitespace`, with the word so far.
unfoldable pub split_words : List ℕ → List ℕ → List (List ℕ)
split_words word [] = if is_empty word then [] else word ∷ []
split_words word (c ∷ s) =
    let rest = split_words (if is_space c then [] else word ++ c ∷ []) s in
    if is_space c && not (is_empty word) then word ∷ rest else rest

abbrev pub join : List (List ℕ) → List ℕ
join [] = []
join (w ∷ []) = w
join (w ∷ v ∷ ws) = w ++ 32 ∷ join (v ∷ ws)

unfoldable pub collapse_whitespace : List ℕ → List ℕ
collapse_whitespace s = join (split_words [] s)

abbrev pub to_upper : ℕ → ℕ
to_upper c = if leb 97 c && leb c 122 then c - 32 else c

unfoldable pub normalize_keyword : List ℕ → List ℕ
normalize_keyword key =
    let trimmed = trim key in
    if is_hierarch_key trimmed
    then map to_upper (collapse_whitespace trimmed)
    else map to_upper trimmed

unfoldable pub storage_keyword : List ℕ → List ℕ
storage_keyword key =
    let trimmed = trim key in
    if is_hierarch_key trimmed then collapse_whitespace trimmed else map to_upper trimmed

abbrev pub key_field : List ℕ → List ℕ
key_field card = trim (take 8 card)

-- `card[8..eq_pos].trim()`
abbrev pub long_key : ℕ → List ℕ → List ℕ
long_key eq_pos card = trim (drop 8 (take eq_pos card))

abbrev pub hierarch_of : List ℕ → Option ℕ → List ℕ
hierarch_of card none = codes "HIERARCH"
hierarch_of card (some eq_pos) =
    if is_empty (long_key eq_pos card) then codes "HIERARCH" else long_key eq_pos card

abbrev pub keyword_of_trimmed : List ℕ → Option (List ℕ)
keyword_of_trimmed card =
    if is_empty card
    then none
    else if same (key_field card) (codes "HIERARCH")
    then some (hierarch_of card (find 61 card))
    else some (key_field card)

unfoldable pub keyword_of : List ℕ → Option (List ℕ)
keyword_of card = keyword_of_trimmed (trim_end card)

-- "END" | "COMMENT" | "HISTORY" | "" | "CONTINUE"
unfoldable pub is_skipped : List ℕ → Bool
is_skipped key =
    same key (codes "END")
    || (same key (codes "COMMENT")
        || (same key (codes "HISTORY") || (is_empty key || same key (codes "CONTINUE"))))

abbrev pub mem : List ℕ → List (List ℕ) → Bool
mem key [] = false
mem key (k ∷ ks) = same key k || mem key ks

abbrev pub literal_protected : List (List ℕ)
literal_protected =
    codes "SIMPLE"
    ∷ codes "XTENSION"
    ∷ codes "EXTEND"
    ∷ codes "BITPIX"
    ∷ codes "NAXIS"
    ∷ codes "PCOUNT"
    ∷ codes "GCOUNT"
    ∷ codes "END"
    ∷ codes "TFIELDS"
    ∷ codes "THEAP"
    ∷ codes "GROUPS"
    ∷ codes "ZIMAGE"
    ∷ codes "ZCMPTYPE"
    ∷ codes "ZBITPIX"
    ∷ codes "ZNAXIS"
    ∷ codes "ZSIMPLE"
    ∷ codes "ZEXTEND"
    ∷ codes "ZBLOCKED"
    ∷ codes "ZPCOUNT"
    ∷ codes "ZGCOUNT"
    ∷ codes "ZHECKSUM"
    ∷ codes "ZDATASUM"
    ∷ codes "ZTENSION"
    ∷ codes "ZQUANTIZ"
    ∷ codes "ZDITHER0"
    ∷ codes "ZMASKCMP"
    ∷ codes "ZBLANK"
    ∷ codes "CHECKSUM"
    ∷ codes "DATASUM"
    ∷ []

abbrev pub indexed_prefixes : List (List ℕ)
indexed_prefixes =
    codes "NAXIS"
    ∷ codes "TFORM"
    ∷ codes "TDIM"
    ∷ codes "TTYPE"
    ∷ codes "TSCAL"
    ∷ codes "TZERO"
    ∷ codes "TNULL"
    ∷ codes "TBCOL"
    ∷ codes "PTYPE"
    ∷ codes "PSCAL"
    ∷ codes "PZERO"
    ∷ codes "ZNAXIS"
    ∷ codes "ZTILE"
    ∷ codes "ZNAME"
    ∷ codes "ZVAL"
    ∷ []

abbrev pub all_digits : List ℕ → Bool
all_digits [] = true
all_digits (c ∷ s) = (leb 48 c && leb c 57) && all_digits s

unfoldable pub has_index : List ℕ → List (List ℕ) → Bool
has_index key [] = false
has_index key (p ∷ ps) =
    let suffix = drop (length p) key in
    (starts_with p key && (not (is_empty suffix) && all_digits suffix)) || has_index key ps

unfoldable pub is_protected_key : List ℕ → Bool
is_protected_key key = mem key literal_protected || has_index key indexed_prefixes

abbrev pub is_key_char : ℕ → Bool
is_key_char c =
    (leb 65 c && leb c 90)
    || ((leb 97 c && leb c 122) || ((leb 48 c && leb c 57) || ((c == 45) || (c == 95))))

abbrev pub all_key_chars : Bool → List ℕ → Bool
all_key_chars hierarch [] = true
all_key_chars hierarch (c ∷ s) =
    (is_key_char c || (hierarch && ((c == 32) || ((c == 46) || (c == 43)))))
    && all_key_chars hierarch s

unfoldable pub validate_keyword : List ℕ → Outcome HeaderError (Unit {0})
validate_keyword key =
    if is_empty key
    then err empty_keyword
    else if same (map to_upper key) (codes "HIERARCH")
    then err hierarch_keyword
    else if all_key_chars (is_hierarch_key key) key
    then ok tt
    else err invalid_character
