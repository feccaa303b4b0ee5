-- ===== src/Header/Disk/Rewrite.antt =====
-- header.rs: `rewrite_header_to_disk` as a whole, with the room it makes in the file.
use rustfits.Prelude.{
  ℕ, suc, ◌+◌, ◌-◌, ◌*◌, ◌/◌, ◌^◌, ◌≤◌, ◌<◌, ◌≡◌, refl, ap, sym, ◌∙◌, max, map, Bool, true, false,
  ltb, ◌==◌, List, [], ◌∷◌, length, length-append, get_or, All, ok, arith,
}
use native.Mathlib.Decide.{dec_lt}
use rustfits.Storage.{Backend, is_remote}
use rustfits.Storage.World.{World, HduOffsets, at}
use rustfits.Storage.Bytes.{byte_at}
use rustfits.Storage.Shift.{add_u64, chunk_size, shift_tail, shift_file_tail_and_update_offsets}
use rustfits.Storage.Opened.{moved_hdu, with_hdus, shift_tail-IsOpened}
use rustfits.Header.Disk.{
  no_offsets, offsets_of, bump, header_bytes, needed_blocks, grow_header, write_header,
  rewrite_header_to_disk,
}
use rustfits.Header.Disk.Cards.{IsWritable, with_end}
use rustfits.Header.Disk.Reader.{end_card}
use rustfits.Header.Disk.Written.{write_header-at, overwrite-IsWritten}
use rustfits.Header.Disk.Offsets.{IsRewritten, get_or-map, length-map, get_or-bump}

length-with_end : (body : List (List ℕ)) → length (with_end body) ≡ suc (length body)
length-with_end body = omega (arith, length-append body (end_card ∷ []))

module _ (w : World) (b : Backend) (xs : List ℕ) (p : ℕ) (d : Bool) (own : ℕ)
    (body : List (List ℕ)) where
  abbrev h : HduOffsets
  h = offsets_of own w

  abbrev needed : ℕ
  needed = needed_blocks (suc (length body))

  abbrev Rewritten : Type 0
  Rewritten =
      (u : World) × (ys : List ℕ) × (q : ℕ) × (e : Bool) × (rewrite_header_to_disk own
          (with_end body) (at w b xs p d)
        ≡ (ok tt, at u b ys q e))
      × IsRewritten own h body xs ys e b u

  abbrev bytes_in : ℕ → List ℕ
  bytes_in blocks = header_bytes (blocks * 2880) (with_end body)

  kept_run :
      length body < h.header_block_count * 36
      → rewrite_header_to_disk own (with_end body) (at w b xs p d)
        ≡ write_header h.header_offset (bytes_in h.header_block_count) (at w b xs p d)
  unfolding rewrite_header_to_disk
  kept_run room =
      let test : ltb (h.header_block_count * 36) (length (with_end body)) ≡ false =
        ground (arith, length-with_end body) in
      rw test refl

  rewrite-kept :
      is_remote b ≡ false
      → h.data_offset ≡ h.header_offset + h.header_block_count * 2880
      → h.data_offset ≤ length xs
      → All IsWritable body
      → length body < h.header_block_count * 36
      → Rewritten
  unfolding needed_blocks
  rewrite-kept local place inside ws room =
      let most : max h.header_block_count ((suc (length body) + 35) / 36) ≡ h.header_block_count =
        omega arith in
      let s =
        overwrite-IsWritten xs h.header_offset h.header_block_count body ws room (omega arith) in
      (
        w,
        _,
        _,
        _,
        kept_run room
            ∙ write_header-at w b xs p d h.header_offset (bytes_in h.header_block_count) local,
        record {
          reread = λ lenient. s.reread lenient b _;
          before = s.before;
          tail = λ j low. s.behind (h.data_offset + j) (omega arith);
          offsets = rw (most, sym place) refl;
        },
      )

  abbrev delta : ℕ
  delta = needed - h.header_block_count

  abbrev moved : World → World
  moved u = record u { hdus = bump own delta (delta * 2880) u.hdus }

  grow_header-at :
      (u : World)
      → 0 < delta
      → shift_tail chunk_size h.data_offset (delta * 2880) (at w b xs p d) ≡ (ok tt, u)
      → grow_header own delta (at w b xs p d) ≡ (ok tt, moved u)
  unfolding grow_header shift_file_tail_and_update_offsets
  grow_header-at u more ran =
      let test : (delta * 2880 == 0) ≡ false = ground arith in rw (test, ran) refl

  grown_run :
      (u : World)
      → h.header_block_count * 36 ≤ length body
      → grow_header own delta (at w b xs p d) ≡ (ok tt, u)
      → rewrite_header_to_disk own (with_end body) (at w b xs p d)
        ≡ write_header h.header_offset (bytes_in needed) u
  unfolding rewrite_header_to_disk
  grown_run u many ran =
      let test : ltb (h.header_block_count * 36) (length (with_end body)) ≡ true =
        ground (arith, length-with_end body) in
      rw (test, length-with_end body, ran) refl

  abbrev target : HduOffsets
  target = record {
    header_offset = h.header_offset;
    header_block_count = max h.header_block_count needed;
    data_offset = h.header_offset + max h.header_block_count needed * 2880;
  }

  module _ (local : is_remote b ≡ false) (listed : own < length w.hdus)
      (place : h.data_offset ≡ h.header_offset + h.header_block_count * 2880)
      (inside : h.data_offset ≤ length xs) (one : 0 < h.header_block_count)
      (small : length xs + delta * 2880 < 2 ^ 63)
      (many : h.header_block_count * 36 ≤ length body) where
    abbrev shifted : List HduOffsets
    shifted = map (moved_hdu (λ (offset : ℕ). add_u64 offset (delta * 2880)) h.data_offset) w.hdus

    more : 0 < delta
    unfolding needed_blocks
    more = omega arith

    room_needed : length body < needed * 36
    unfolding needed_blocks
    room_needed = omega arith

    own-shifted : get_or shifted own no_offsets ≡ h
    own-shifted =
        let ahead : ltb h.header_offset h.data_offset ≡ true = ground arith in
        get_or-map (moved_hdu (λ (offset : ℕ). add_u64 offset (delta * 2880)) h.data_offset) w.hdus
          own listed
        ∙ rw ahead refl

    own-bumped : get_or (bump own delta (delta * 2880) shifted) own no_offsets ≡ target
    own-bumped =
        let count : add_u64 h.header_block_count delta ≡ max h.header_block_count needed =
          omega (arith, more) in
        let start : add_u64 h.data_offset (delta * 2880)
            ≡ h.header_offset + max h.header_block_count needed * 2880 =
          omega (arith, more) in
        get_or-bump own delta (delta * 2880) shifted (
          rw
            (length-map (moved_hdu (λ (offset : ℕ). add_u64 offset (delta * 2880)) h.data_offset)
              w.hdus)
            listed)
        ∙ rw (own-shifted, count, start) refl

    rewrite-grown : w.layout_poisoned ≡ false → All IsWritable body → Rewritten
    rewrite-grown layout ws =
        let (zs, q, e, ran, o) =
          shift_tail-IsOpened w b xs p d chunk_size h.data_offset (delta * 2880) local layout
            (omega arith) inside small in
        let u =
          with_hdus (at w b zs q e) (λ (offset : ℕ). add_u64 offset (delta * 2880)) h.data_offset in
        let s =
          overwrite-IsWritten zs h.header_offset needed body ws room_needed
            (omega (arith, more, o.len)) in
        (
          moved u,
          _,
          _,
          _,
          grown_run (moved u) many (grow_header-at u more ran)
              ∙ write_header-at (moved u) b zs q e h.header_offset (bytes_in needed) local,
          record {
            reread = λ lenient. s.reread lenient b _;
            before = λ i low. s.before i low ∙ o.before i (omega arith);
            tail = λ j low.
                let there : (offsets_of own (moved u)).data_offset + j
                    ≡ h.data_offset + delta * 2880 + j =
                  omega (arith, more, ap (λ (x : HduOffsets). x.data_offset) own-bumped) in
                ap (byte_at _) there
                ∙ s.behind (h.data_offset + delta * 2880 + j) (omega (arith, more))
                ∙ o.tail j low;
            offsets = own-bumped;
          },
        )

-- `rewrite_header_to_disk` with the END card last and any cards before it that are printable, at
-- most 80 bytes long, without spaces at their ends and not END themselves. The header has at least
-- one block, its offset is one of the file's list, its data stands behind its blocks and begins
-- inside the file, no operation of the store fails, no lock is poisoned, and the length of the file
-- and of the blocks that the cards need is below 2^63 in all. Then the call succeeds, however many cards there are. fits.rs reads the same cards at the
-- same offset, and takes the data to begin behind the blocks that they need. The bytes before the
-- header are what they were, and the bytes from the data on stand behind all blocks of the header,
-- which are those it had or those it needs, the greater number; its own offsets say so.
pub read_header_cards-rewrite_header_to_disk :
    (w : World) (b : Backend) (xs : List ℕ) (p : ℕ) (d : Bool) (own : ℕ) (body : List (List ℕ))
    → is_remote b ≡ false
    → w.layout_poisoned ≡ false
    → own < length w.hdus
    → (offsets_of own w).data_offset
      ≡ (offsets_of own w).header_offset + (offsets_of own w).header_block_count * 2880
    → (offsets_of own w).data_offset ≤ length xs
    → 0 < (offsets_of own w).header_block_count
    → length xs + needed_blocks (suc (length body)) * 2880 < 2 ^ 63
    → All IsWritable body
    → (u : World) × (ys : List ℕ) × (q : ℕ) × (e : Bool) × (rewrite_header_to_disk own
          (with_end body)
          (at w b xs p d)
        ≡ (ok tt, at u b ys q e))
      × IsRewritten own (offsets_of own w) body xs ys e b u
read_header_cards-rewrite_header_to_disk w b xs p d own body local layout listed place inside one
      small ws =
    elim (dec_lt (length body) ((offsets_of own w).header_block_count * 36)) [
      | yes room ↦ rewrite-kept w b xs p d own body local place inside ws room
      | no many ↦
          rewrite-grown w b xs p d own body local listed place inside one (omega arith)
            (omega arith) layout ws
    ]
