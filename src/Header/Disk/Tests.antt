-- ===== src/Header/Disk/Tests.antt =====
-- Tests of the header on disk, and an instance of the theorem on it.
use rustfits.Prelude.{
  ℕ, Bool, zero, suc, ◌≡◌, refl, false, true, List, [], ◌∷◌, ◌++◌, length, replicate, length-append,
  length-replicate, All, ok, err, arith,
}
use rustfits.Storage.{disk, mem, read_exact}
use rustfits.Storage.World.{World, opened, at, quiet}
use rustfits.Header.Text.{codes, trim_end, same}
use rustfits.Header.Disk.{
  offsets_of, needed_blocks, padded, card_bytes, header_bytes, rewrite_header_to_disk,
}
use rustfits.Header.Disk.Cards.{IsWritable, with_end}
use rustfits.Header.Disk.Offsets.{IsRewritten}
use rustfits.Header.Disk.Reader.{
  check_block, block_cards, read_header_blocks, end_card, truncated, non_printable,
}
use rustfits.Header.Disk.Rewrite.{read_header_cards-rewrite_header_to_disk}

needed_blocks_test : needed_blocks 36 ≡ 1
unfolding needed_blocks
needed_blocks_test = refl

next_block_test : needed_blocks 37 ≡ 2
unfolding needed_blocks
next_block_test = refl

padded_test : length (padded (replicate 90 65)) ≡ 80
unfolding padded
padded_test = refl

-- What stands behind the END card of a block is no card.
block_cards_test :
    block_cards 3 (header_bytes 240 (codes "A = 1" ∷ end_card ∷ codes "B" ∷ []))
    ≡ (codes "A = 1" ∷ end_card ∷ [], true)
unfolding block_cards header_bytes card_bytes padded trim_end same
block_cards_test = refl

check_block_test : check_block false 10 (65 ∷ 9 ∷ 7 ∷ []) ≡ err (non_printable 9 11)
unfolding check_block
check_block_test = refl

lenient_block : check_block true 10 (65 ∷ 9 ∷ 66 ∷ []) ≡ ok (65 ∷ 95 ∷ 66 ∷ [])
unfolding check_block
lenient_block = refl

cut_header :
    (read_header_blocks true 0 2 (codes "A" ∷ []) (quiet mem (65 ∷ []) 0 false)).0 ≡ err truncated
unfolding read_header_blocks read_exact
cut_header = refl

abbrev a_card : List ℕ
a_card = codes "A = 1"

abbrev many_cards : List (List ℕ)
many_cards = replicate 36 a_card

abbrev a_file : List ℕ
a_file = replicate 2880 32 ++ (1 ∷ 2 ∷ 3 ∷ [])

abbrev a_world : World
a_world = record {
  file = opened (quiet disk a_file 0 false);
  hdus = record { header_offset = 0; header_block_count = 1; data_offset = 2880 } ∷ [];
  layout_poisoned = false;
  tainted = false;
}

a_card-IsWritable : IsWritable a_card
unfolding trim_end same
a_card-IsWritable = record {
  fits = omega arith;
  trimmed = refl;
  printable = (refl, (refl, (refl, (refl, (refl, tt)))));
  not_end = refl;
}

copies-IsWritable : (n : ℕ) → All IsWritable (replicate n a_card)
copies-IsWritable zero = tt
copies-IsWritable (suc n) = (a_card-IsWritable, copies-IsWritable n)

length-a_file : length a_file ≡ 2883
length-a_file =
    let blank : length {A = ℕ} (replicate 2880 32) ≡ 2880 = length-replicate {A = ℕ} 2880 32 in
    omega (arith, length-append {A = ℕ} (replicate 2880 32) (1 ∷ 2 ∷ 3 ∷ []), blank)

blocks_of_many : needed_blocks (suc (length many_cards)) ≡ 2
unfolding needed_blocks
blocks_of_many = refl

read_header_cards-rewrite_header_to_disk_example :
    (u : World) × (ys : List ℕ) × (q : ℕ) × (e : Bool) × (rewrite_header_to_disk 0
        (with_end many_cards)
        (at a_world disk a_file 0 false)
      ≡ (ok tt, at u disk ys q e))
    × IsRewritten 0 (offsets_of 0 a_world) many_cards a_file ys e disk u
read_header_cards-rewrite_header_to_disk_example =
    read_header_cards-rewrite_header_to_disk a_world disk a_file 0 false 0 many_cards refl refl
      (omega arith) refl (omega (arith, length-a_file)) (omega arith)
      (omega (arith, length-a_file, blocks_of_many)) (copies-IsWritable 36)
