-- ===== src/Header/Disk/Reader.antt =====
-- fits.rs: the part of `parse_hdus_from_file` that reads the blocks of a header.
use rustfits.Prelude.{
  ℕ, zero, suc, leb, ◌&&◌, if◌then◌else◌, Bool, true, false, List, [], ◌∷◌, ◌++◌, length, take,
  drop, Outcome, ok, err,
}
use rustfits.Storage.{IoError, unexpected_eof, Storage, IoResult, read_exact}
use rustfits.Storage.Shift.{block_size}
use rustfits.Header.Text.{codes, trim_end, same}

pub data ParseError : Type 0 where
  truncated : ParseError
  io_error : IoError → ParseError
  non_printable : ℕ → ℕ → ParseError

abbrev pub is_printable : ℕ → Bool
is_printable b = leb 32 b && leb b 126

abbrev pub prepend : ℕ → Outcome ParseError (List ℕ) → Outcome ParseError (List ℕ)
prepend b (ok bs) = ok (b ∷ bs)
prepend b (err e) = err e

-- The loop over the bytes of a block, the first of them at `at`.
unfoldable pub check_block : Bool → ℕ → List ℕ → Outcome ParseError (List ℕ)
check_block lenient at [] = ok []
check_block lenient at (b ∷ bs) =
    let rest = check_block lenient (suc at) bs in
    if is_printable b
    then prepend b rest
    else if lenient
    then prepend 95 rest
    else err (non_printable b at)

abbrev pub end_card : List ℕ
end_card = codes "END"

-- The loop over the cards of a block, which ends at the END card: the cards, and whether it is one
-- of them.
unfoldable pub block_cards : ℕ → List ℕ → List (List ℕ) × Bool
block_cards zero block = ([], false)
block_cards (suc n) block =
    let card = trim_end (take 80 block) in
    let rest = block_cards n (drop 80 block) in
    if same card end_card then (card ∷ [], true) else (card ∷ rest.0, rest.1)

abbrev pub Parsed : Type 0
Parsed = Outcome ParseError (List (List ℕ)) × Storage

abbrev pub at_eof : List (List ℕ) → Outcome ParseError (List (List ℕ))
at_eof [] = ok []
at_eof (card ∷ cards) = err truncated

abbrev pub failed_read : IoError → List (List ℕ) → Outcome ParseError (List (List ℕ))
failed_read unexpected_eof cards = at_eof cards
failed_read e cards = err (io_error e)

-- The cards of a block behind those before it. `more` is the next turn of the loop.
abbrev pub take_cards :
    List (List ℕ) → (List (List ℕ) → Storage → Parsed) → Storage → List (List ℕ) × Bool → Parsed
take_cards cards more s (new, true) = (ok (cards ++ new), s)
take_cards cards more s (new, false) = more (cards ++ new) s

abbrev pub after_check :
    List (List ℕ)
    → (List (List ℕ) → Storage → Parsed)
    → Storage
    → Outcome ParseError (List ℕ)
    → Parsed
after_check cards more s (ok block) = take_cards cards more s (block_cards 36 block)
after_check cards more s (err e) = (err e, s)

abbrev pub read_header_block :
    Bool → ℕ → List (List ℕ) → (List (List ℕ) → Storage → Parsed) → IoResult (List ℕ) → Parsed
read_header_block lenient offset cards more (err e, s) = (failed_read e cards, s)
read_header_block lenient offset cards more (ok block, s) =
    after_check cards more s (check_block lenient offset block)

-- `while !end_found`: a turn reads a block or is the last.
unfoldable pub read_header_blocks : Bool → ℕ → ℕ → List (List ℕ) → Storage → Parsed
read_header_blocks lenient offset zero cards s = (ok cards, s)
read_header_blocks lenient offset (suc fuel) cards s =
    read_header_block lenient offset cards (read_header_blocks lenient offset fuel)
      (read_exact block_size s)

unfoldable pub read_header_cards : Bool → ℕ → Storage → Parsed
read_header_cards lenient offset s = read_header_blocks lenient offset (suc (length s.bytes)) [] s
