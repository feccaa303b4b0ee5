-- ===== src/Header/Disk/Layout.antt =====
-- header.rs: the bytes of a header, block by block.
use rustfits.Prelude.{
  ℕ, suc, append-nil, ◌+◌, ◌-◌, ◌*◌, ◌≤◌, ◌<◌, ◌≡◌, refl, ap, sym, ◌∙◌, true, List, [], ◌∷◌, ◌++◌,
  append_assoc, length, length-append, All, All-append, replicate-add, arith,
}
use rustfits.Header.Build.{spaces}
use rustfits.Header.Disk.{padded, card_bytes, header_bytes}
use rustfits.Header.Disk.Cards.{
  IsPrintable, IsWritable, with_end, length-spaces, spaces-IsPrintable, padded_end-IsPrintable,
  length-padded_end, card_bytes-IsPrintable, length-card_bytes, block_cards_last,
}
use rustfits.Header.Disk.Reader.{block_cards, end_card}

card_bytes-append : (xs ys : List (List ℕ)) → card_bytes (xs ++ ys) ≡ card_bytes xs ++ card_bytes ys
unfolding card_bytes
card_bytes-append [] ys = refl
card_bytes-append (x ∷ xs) ys =
    ap (◌++◌ (padded x)) (card_bytes-append xs ys)
    ∙ sym (append_assoc (padded x) (card_bytes xs) (card_bytes ys))

end_bytes : card_bytes (end_card ∷ []) ≡ padded end_card
unfolding card_bytes
end_bytes = append-nil (padded end_card)

pub card_bytes-with_end :
    (body : List (List ℕ)) → card_bytes (with_end body) ≡ card_bytes body ++ padded end_card
card_bytes-with_end body =
    card_bytes-append body (end_card ∷ []) ∙ ap (◌++◌ (card_bytes body)) end_bytes

module _ (body : List (List ℕ)) (ws : All IsWritable body) where
  pub length-with_end : length (card_bytes (with_end body)) ≡ suc (length body) * 80
  length-with_end =
      let e = ap length (card_bytes-with_end body) in
      omega (
        arith,
        e,
        length-append (card_bytes body) (padded end_card),
        length-card_bytes body ws,
        length-padded_end,
      )

  pub length-header_bytes :
      (target : ℕ)
      → suc (length body) * 80 ≤ target
      → length (header_bytes target (with_end body)) ≡ target
  unfolding header_bytes
  length-header_bytes target h =
      let bytes = card_bytes (with_end body) in
      omega (
        arith,
        length-append bytes (spaces (target - length bytes)),
        length-spaces (target - length bytes),
        length-with_end,
      )

  pub header_bytes-IsPrintable :
      (target : ℕ) → All IsPrintable (header_bytes target (with_end body))
  unfolding header_bytes
  header_bytes-IsPrintable target =
      let bytes = card_bytes (with_end body) in
      let all : All IsPrintable bytes = rw (card_bytes-with_end body) (
        All-append IsPrintable (card_bytes body) (padded end_card) (card_bytes-IsPrintable body ws)
          padded_end-IsPrintable) in
      All-append IsPrintable bytes (spaces (target - length bytes)) all
        (spaces-IsPrintable (target - length bytes))

  -- The blocks behind the one with the END card are blank.
  pub header_bytes-blank :
      (k : ℕ)
      → length body < 36
      → header_bytes (suc k * 2880) (with_end body)
        ≡ header_bytes 2880 (with_end body) ++ spaces (k * 2880)
  unfolding header_bytes
  header_bytes-blank k few =
      let bytes = card_bytes (with_end body) in
      let e : suc k * 2880 - length bytes ≡ (2880 - length bytes) + k * 2880 =
        omega (arith, length-with_end) in
      rw (e, replicate-add {A = ℕ} (2880 - length bytes) (k * 2880) 32)
        (sym (append_assoc bytes (spaces (2880 - length bytes)) (spaces (k * 2880))))

  pub last_block :
      length body < 36 → block_cards 36 (header_bytes 2880 (with_end body)) ≡ (with_end body, true)
  unfolding header_bytes
  last_block few =
      let bytes = card_bytes (with_end body) in
      block_cards_last 36 body (spaces (2880 - length bytes)) ws few

-- The first block of more cards than it can hold.
pub header_bytes-full :
    (k : ℕ) (first body : List (List ℕ))
    → All IsWritable first
    → length first ≡ 36
    → header_bytes (suc k * 2880) (with_end (first ++ body))
      ≡ card_bytes first ++ header_bytes (k * 2880) (with_end body)
unfolding header_bytes
header_bytes-full k first body ws full =
    let rest = card_bytes (with_end body) in
    let bytes : card_bytes (with_end (first ++ body)) ≡ card_bytes first ++ rest =
      ap card_bytes (append_assoc first body (end_card ∷ []))
      ∙ card_bytes-append first (with_end body) in
    let e : suc k * 2880 - length (card_bytes first ++ rest) ≡ k * 2880 - length rest =
      omega (arith, length-append (card_bytes first) rest, length-card_bytes first ws) in
    rw (bytes, e) (append_assoc (card_bytes first) rest (spaces (k * 2880 - length rest)))
