-- ===== src/Header/Tests.antt =====
-- header.rs: cards as text, and the theorems at concrete inputs.
use rustfits.Prelude.{
  inl, ℕ, ◌≤◌, ◌≡◌, refl, false, List, [], ◌∷◌, ◌++◌, map, replicate, take, drop, none, some,
  Outcome, ok, ◌>>=◌, arith,
}
use rustfits.Header.Text.{codes, trim_end, trim_start, same, starts_with, ends_with, pop, find}
use rustfits.Header.Value.{
  quote, amp, Value, text, split_loop, split_value_comment, unescape, extract_fits_string,
  continue_loop, parse_value_with_continue,
}
use rustfits.Header.Build.{
  pad_to_card, escape, card_string, back_off, take_part, chunk_loop, build_string_value_cards,
  HeaderError,
}
use rustfits.Header.Single.{IsReadBack}
use rustfits.Header.Strings.{
  read_first, parse_value_with_continue-build_string_value_cards, build_string_value_cards-dangling,
}
use rustfits.Header.Keyword.{keyword_of, normalize_keyword, is_skipped, is_protected_key, has_index}
use rustfits.Header.Edit.{
  card_value_ends_with_amp, chain_more, delete_card_for_key, set_card_for_key, lookup_value,
  filter_loop, filter_protected_cards,
}
use rustfits.Header.Written.{IsUserKey}
use rustfits.Header.SetGet.{HasNoOrphan, lookup_value-set_card_for_key}
use rustfits.Header.Delete.{IsDeleted, count_named, lookup_value-delete_card_for_key}
use rustfits.Header.Protected.{IsFiltered, filter_protected_cards-IsFiltered}

abbrev long_value : List ℕ
long_value = replicate 66 120 ++ (codes "''' and /more' " ++ replicate 60 121)

abbrev cards_after : List (List ℕ)
cards_after = codes "END" ∷ []

abbrev read_long : Outcome HeaderError (Value × List ℕ)
read_long = build_string_value_cards (codes "OBJECT") long_value (codes "a/b 'c'") >>= λ cards.
    ok (read_first (map trim_end cards ++ cards_after))

object_card :
    card_string (codes "OBJECT") (codes "O'Brien") (codes "name")
    ≡ codes "OBJECT  = 'O''Brien'           / name                                           "
unfolding card_string escape pad_to_card
object_card = refl

read_back : read_long ≡ ok (text long_value, codes "a/b 'c'")
unfolding build_string_value_cards escape take_part back_off chunk_loop pad_to_card trim_end
    trim_start split_loop split_value_comment unescape extract_fits_string continue_loop starts_with
    ends_with pop same parse_value_with_continue
read_back = refl

end_follows : starts_with (codes "CONTINUE") (trim_end (codes "END")) ≡ false
unfolding starts_with trim_end
end_follows = refl

parse_value_with_continue-build_string_value_cards_example :
    (cards : List (List ℕ)) × (build_string_value_cards
        (codes "OBJECT")
        long_value
        (codes "a/b 'c'")
      ≡ ok cards)
    × IsReadBack long_value (codes "a/b 'c'") (read_first (map trim_end cards ++ cards_after))
parse_value_with_continue-build_string_value_cards_example =
    parse_value_with_continue-build_string_value_cards (codes "OBJECT") long_value (codes "a/b 'c'")
      cards_after (omega arith) (inl (omega arith)) end_follows

build_string_value_cards-dangling_example :
    (cards : List (List ℕ)) × (build_string_value_cards
        (codes "OBJECT")
        (quote ∷ [])
        (replicate 64 120)
      ≡ ok cards)
    × (read_first (map trim_end cards ++ cards_after) ≡ (text (quote ∷ amp ∷ []), []))
build_string_value_cards-dangling_example =
    build_string_value_cards-dangling (codes "OBJECT") (replicate 64 120) cards_after (omega arith)
      refl end_follows

abbrev header : List (List ℕ)
header =
    codes "SIMPLE  =                    T"
    ∷ codes "OBJECT  = 'M31     &'"
    ∷ codes "CONTINUE  ' north'"
    ∷ codes "FILTER  = 'g       '"
    ∷ codes "END"
    ∷ []

header-HasNoOrphan : HasNoOrphan header
unfolding starts_with trim_end card_value_ends_with_amp find split_value_comment split_loop
    trim_start ends_with
header-HasNoOrphan = (refl, (refl, (refl, (refl, (refl, tt)))))

object-IsUserKey : IsUserKey (codes "OBJECT")
unfolding same is_skipped normalize_keyword trim_start trim_end
object-IsUserKey = record { short = omega arith; valid = refl; ordinary = refl; simple = refl }

lookup_value-set_card_for_key_example :
    (new : List (List ℕ)) × (build_string_value_cards (codes "OBJECT") long_value (codes "a/b 'c'")
      ≡ ok new)
    × (r : Value × List ℕ) × (lookup_value
          (set_card_for_key header (normalize_keyword (codes "OBJECT")) new)
          (normalize_keyword (codes "OBJECT"))
        ≡ some r)
    × IsReadBack long_value (codes "a/b 'c'") r
lookup_value-set_card_for_key_example =
    lookup_value-set_card_for_key header (codes "OBJECT") long_value (codes "a/b 'c'")
      object-IsUserKey (omega arith) header-HasNoOrphan

filter_protected_cards-IsFiltered_example :
    IsFiltered (filter_protected_cards header) header × HasNoOrphan (filter_protected_cards header)
filter_protected_cards-IsFiltered_example =
    filter_protected_cards-IsFiltered header header-HasNoOrphan

kept_cards : filter_protected_cards header ≡ drop 1 (take 4 header)
unfolding filter_protected_cards filter_loop keyword_of is_protected_key has_index same starts_with
    trim_end chain_more card_value_ends_with_amp split_value_comment split_loop trim_start find
kept_cards = refl

once : count_named (codes "OBJECT") header ≤ 1
unfolding keyword_of is_skipped normalize_keyword same trim_end trim_start
once = omega arith

lookup_value-delete_card_for_key_example :
    IsDeleted
      (codes "OBJECT")
      header
      (delete_card_for_key header (codes "OBJECT")).0
      (delete_card_for_key header (codes "OBJECT")).1
    × (lookup_value (delete_card_for_key header (codes "OBJECT")).0 (codes "OBJECT") ≡ none)
    × HasNoOrphan (delete_card_for_key header (codes "OBJECT")).0
unfolding normalize_keyword trim_start trim_end
lookup_value-delete_card_for_key_example =
    lookup_value-delete_card_for_key header (codes "OBJECT") object-IsUserKey.ordinary once
      header-HasNoOrphan
