-- ===== src/Remote/Copy.antt =====
-- remote_range.rs: the bytes of the span, copied out of its blocks.
use rustfits.Prelude.{
  suc-mul, ℕ, suc, ◌+◌, ◌-◌, ◌*◌, ◌^◌, ◌≤◌, ◌<◌, ◌≡◌, refl, sym, ap, ◌∙◌, true, leb, min, max,
  Option, none, some, List, [], ◌∷◌, length, take, drop, length-take, length-drop, get_or-take,
  get_or-drop, ok, ◌>>=◌, arith,
}
use native.Mathlib.Decide.{dec_lt}
use rustfits.Cache.Lru.{Bytes}
use rustfits.Storage.Bytes.{
  overwrite, byte_at, length-overwrite, byte_at-overwrite_before, byte_at-overwrite_in,
  byte_at-overwrite_after,
}
use rustfits.Remote.{mul_u64, copy_block, copy_blocks}
use rustfits.Remote.Blocks.{block_of, length-block_of, byte_at-block_of}
use rustfits.Remote.Slots.{IsFull}

module _ (file : List ℕ) (block_bytes p want : ℕ) (buf : List ℕ) where
  -- The bytes of the span before `stop` are in the buffer, and what lies behind the span is kept.
  pub record IsCopied (stop : ℕ) (new : List ℕ) : Type 0 where
    pub len : length new ≡ length buf
    pub right : (k : ℕ) → k < want → p + k < stop → byte_at new k ≡ byte_at file (p + k)
    pub kept : (k : ℕ) → want ≤ k → byte_at new k ≡ byte_at buf k

  module _ (fits : want ≤ length buf) (inside : p + want ≤ length file)
      (small : length file + block_bytes < 2 ^ 63) where
    copy_block-IsCopied :
        (b : ℕ) (old : List ℕ)
        → b * block_bytes < p + want
        → p < b * block_bytes + block_bytes
        → IsCopied (b * block_bytes) old
        → (new : List ℕ) × (copy_block
              (b * block_bytes)
              p
              (p + want)
              (block_of file block_bytes b)
              old
            ≡ ok new)
          × IsCopied (b * block_bytes + block_bytes) new
    copy_block-IsCopied b old before behind c =
        let B = block_bytes in
        let start = b * B in
        let blk = block_of file B b in
        let size = length-block_of file B b in
        let copy_from = max p start in
        let copy_to = min (p + want) (start + length blk) in
        let count = copy_to - copy_from in
        let part = drop (copy_from - start) (take (copy_to - start) blk) in
        let parts : length part ≡ count = omega (
          arith,
          length-drop (copy_from - start) (take (copy_to - start) blk),
          length-take (copy_to - start) blk,
        ) in
        let t : leb copy_from copy_to ≡ true = ground (arith, size) in
        let len = c.len in
        let new = overwrite old (copy_from - p) part in
        (
          new,
          rw t refl,
          record {
            len = length-overwrite old (copy_from - p) part (omega arith) ∙ len;
            right = λ k in_span low. elim (dec_lt (p + k) start) [
              | yes early ↦
                  byte_at-overwrite_before old (copy_from - p) part k (omega arith)
                  ∙ c.right k in_span early
              | no here ↦
                  let j = k - (copy_from - p) in
                  let e : copy_from - p + j ≡ k = omega arith in
                  let in_part : j < length part = omega arith in
                  let e' : start + (copy_from - start + j) ≡ p + k = omega arith in
                  sym (ap (byte_at new) e)
                  ∙ byte_at-overwrite_in old (copy_from - p) part j in_part
                  ∙ get_or-drop 0 (copy_from - start) j (take (copy_to - start) blk)
                  ∙ get_or-take 0 (copy_to - start) (copy_from - start + j) blk (omega arith)
                  ∙ byte_at-block_of file B b (copy_from - start + j) (omega arith)
                  ∙ ap (byte_at file) e'
            ];
            kept = λ k high.
                byte_at-overwrite_after old (copy_from - p) part k (omega arith) ∙ c.kept k high;
          },
        )

    pub copy_blocks-IsCopied :
        (b : ℕ) (slots : List (Option Bytes)) (old : List ℕ)
        → IsFull (block_of file block_bytes) b slots
        → b * block_bytes + length slots * block_bytes < p + want + block_bytes
        → p < b * block_bytes + block_bytes
        → IsCopied (b * block_bytes) old
        → (new : List ℕ) × (copy_blocks block_bytes b p (p + want) slots old ≡ ok new)
          × IsCopied (b * block_bytes + length slots * block_bytes) new
    unfolding copy_blocks
    copy_blocks-IsCopied b [] old full before behind c =
        let len = c.len in
        (
          old,
          refl,
          record {
            len = c.len;
            right = λ k in_span low. c.right k in_span (omega arith);
            kept = c.kept;
          },
        )
    copy_blocks-IsCopied b (some blk ∷ slots) old (here, full) before behind c =
        let B = block_bytes in
        let n = length slots in
        let more = suc-mul n B in
        let next = suc-mul b B in
        let (mid, ran, c') = copy_block-IsCopied b old (omega arith) behind c in
        let (new, ran', c'') =
          copy_blocks-IsCopied (suc b) slots mid full (omega arith) (omega arith) (record {
            len = c'.len;
            right = λ k in_span low. c'.right k in_span (omega arith);
            kept = c'.kept;
          }) in
        let in_word : mul_u64 b B ≡ b * B = omega arith in
        let rest = λ (buf' : List ℕ). copy_blocks B (suc b) p (p + want) slots buf' in
        (
          new,
          ap (λ (s : ℕ). copy_block s p (p + want) blk old >>= rest) in_word
              ∙ ap (λ (block : Bytes). copy_block (b * B) p (p + want) block old >>= rest) here
              ∙ ap (λ r. r >>= rest) ran
              ∙ ran',
          record {
            len = c''.len;
            right = λ k in_span low. c''.right k in_span (omega arith);
            kept = c''.kept;
          },
        )
    copy_blocks-IsCopied b (none ∷ slots) old full before behind c = absurd full
