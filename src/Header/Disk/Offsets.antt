-- ===== src/Header/Disk/Offsets.antt =====
-- header.rs: the offsets of a header, and what holds after it has been written.
use rustfits.Prelude.{
  ℕ, zero, suc, ◌+◌, ◌*◌, ◌<◌, ◌≡◌, refl, ap, max, map, Bool, List, [], ◌∷◌, length, get_or, ok,
  arith,
}
use rustfits.Storage.{Backend}
use rustfits.Storage.World.{World, HduOffsets, quiet}
use rustfits.Storage.Bytes.{byte_at}
use rustfits.Storage.Shift.{add_u64}
use rustfits.Header.Disk.{no_offsets, offsets_of, bump, needed_blocks}
use rustfits.Header.Disk.Cards.{with_end}
use rustfits.Header.Disk.Reader.{read_header_cards}

-- What holds after a header with `blocks` blocks at `offset` has been written: the reader gets the
-- cards, the bytes before it are what they were, and so are those of the data, which stand behind
-- all blocks, as the offsets say.
pub record IsRewritten (own : ℕ) (h : HduOffsets) (body : List (List ℕ)) (xs ys : List ℕ) (e : Bool)
    (b : Backend) (after : World) : Type 0 where
  pub reread :
      (lenient : Bool)
      → read_header_cards lenient h.header_offset (quiet b ys h.header_offset e) ≡ (
        ok (with_end body),
        quiet b ys (h.header_offset + needed_blocks (suc (length body)) * 2880) e,
      )
  pub before : (i : ℕ) → i < h.header_offset → byte_at ys i ≡ byte_at xs i
  pub tail :
      (j : ℕ)
      → h.data_offset + j < length xs
      → byte_at ys ((offsets_of own after).data_offset + j) ≡ byte_at xs (h.data_offset + j)
  pub offsets : offsets_of own after ≡ record {
    header_offset = h.header_offset;
    header_block_count = max h.header_block_count (needed_blocks (suc (length body)));
    data_offset =
        h.header_offset + max h.header_block_count (needed_blocks (suc (length body))) * 2880;
  }

pub get_or-map :
    (f : HduOffsets → HduOffsets) (hs : List HduOffsets) (own : ℕ)
    → own < length hs
    → get_or (map f hs) own no_offsets ≡ f (get_or hs own no_offsets)
get_or-map f [] own h = absurd (omega arith)
get_or-map f (x ∷ hs) zero h = refl
get_or-map f (x ∷ hs) (suc own) h = get_or-map f hs own (omega arith)

pub length-map :
    (f : HduOffsets → HduOffsets) (hs : List HduOffsets) → length (map f hs) ≡ length hs
length-map f [] = refl
length-map f (x ∷ hs) = ap suc (length-map f hs)

pub get_or-bump :
    (own blocks bytes : ℕ) (hs : List HduOffsets)
    → own < length hs
    → get_or (bump own blocks bytes hs) own no_offsets ≡ (
        let h = get_or hs own no_offsets in
        record h {
          header_block_count = add_u64 h.header_block_count blocks;
          data_offset = add_u64 h.data_offset bytes;
        })
unfolding bump
get_or-bump own blocks bytes [] h = absurd (omega arith)
get_or-bump zero blocks bytes (x ∷ hs) h = refl
get_or-bump (suc own) blocks bytes (x ∷ hs) h = get_or-bump own blocks bytes hs (omega arith)
