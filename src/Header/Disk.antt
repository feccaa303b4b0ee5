-- ===== src/Header/Disk.antt =====
-- header.rs: `rewrite_header_to_disk`, which writes the cards of a header into its blocks.
use rustfits.Prelude.{
  ℕ, zero, suc, ◌+◌, ◌-◌, ◌*◌, ◌/◌, ltb, if◌then◌else◌, get_or, List, [], ◌∷◌, ◌++◌, length, take,
  ok,
}
use rustfits.Storage.{Done, seek, write_all, flush}
use rustfits.Storage.World.{HduOffsets, World, FileIo, ◌>=>◌, ◌>>>◌, on_file, or_taint}
use rustfits.Storage.Shift.{block_size, add_u64, shift_file_tail_and_update_offsets}
use rustfits.Header.Build.{spaces}
pub mod Cards
pub mod Reader
pub mod Layout
pub mod Reopen
pub mod Written
pub mod Offsets
pub mod Rewrite
mod Tests

abbrev pub card_size : ℕ
card_size = 80

abbrev pub cards_per_block : ℕ
cards_per_block = 36

-- `n.div_ceil(CARDS_PER_BLOCK)`
unfoldable pub needed_blocks : ℕ → ℕ
needed_blocks n = (n + 35) / cards_per_block

-- One turn of the loop over the cards.
unfoldable pub padded : List ℕ → List ℕ
padded card =
    if ltb (length card) card_size
    then card ++ spaces (card_size - length card)
    else if ltb card_size (length card)
    then take card_size card
    else card

unfoldable pub card_bytes : List (List ℕ) → List ℕ
card_bytes [] = []
card_bytes (card ∷ cards) = padded card ++ card_bytes cards

-- The cards, and spaces up to `target_bytes`.
unfoldable pub header_bytes : ℕ → List (List ℕ) → List ℕ
header_bytes target_bytes cards =
    let bytes = card_bytes cards in bytes ++ spaces (target_bytes - length bytes)

abbrev pub no_offsets : HduOffsets
no_offsets = record { header_offset = 0; header_block_count = 0; data_offset = 0 }

-- A header shares its offsets with the layout of the file: `own` is their index there.
abbrev pub offsets_of : ℕ → World → HduOffsets
offsets_of own w = get_or w.hdus own no_offsets

unfoldable pub bump : ℕ → ℕ → ℕ → List HduOffsets → List HduOffsets
bump own blocks bytes [] = []
bump zero blocks bytes (h ∷ hs) =
    record h {
      header_block_count = add_u64 h.header_block_count blocks;
      data_offset = add_u64 h.data_offset bytes;
    }
    ∷ hs
bump (suc own) blocks bytes (h ∷ hs) = h ∷ bump own blocks bytes hs

-- The two `fetch_add` on the header's own offsets.
abbrev pub fetch_add : ℕ → ℕ → ℕ → FileIo Done
fetch_add own blocks bytes w = (ok tt, record w { hdus = bump own blocks bytes w.hdus })

-- Room for the cards in front of the data.
unfoldable pub grow_header : ℕ → ℕ → FileIo Done
grow_header own delta_blocks w =
    let delta_bytes = delta_blocks * block_size in
    (shift_file_tail_and_update_offsets (offsets_of own w).data_offset delta_bytes
        >>> fetch_add own delta_blocks delta_bytes)
      w

unfoldable pub write_header : ℕ → List ℕ → FileIo Done
write_header header_offset bytes =
    on_file (seek header_offset)
    >>> or_taint (on_file (write_all bytes))
    >>> or_taint (on_file flush)

unfoldable pub rewrite_header_to_disk : ℕ → List (List ℕ) → FileIo Done
rewrite_header_to_disk own cards w =
    let h = offsets_of own w in
    let needed = needed_blocks (length cards) in
    let grown =
      grow_header own (needed - h.header_block_count)
      >>> write_header h.header_offset (header_bytes (needed * block_size) cards) in
    if ltb (h.header_block_count * cards_per_block) (length cards)
    then grown w
    else write_header h.header_offset (header_bytes (h.header_block_count * block_size) cards) w
