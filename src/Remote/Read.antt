-- ===== src/Remote/Read.antt =====
-- remote_range.rs: `read`, against the bytes of the file.
use rustfits.Prelude.{
  add-mul, ℕ, ◌+◌, ◌-◌, ◌*◌, ◌^◌, ◌≤◌, ◌<◌, ◌≡◌, refl, sym, ap, ◌∙◌, true, Bool-cases, ◌||◌, ◌==◌,
  leb, inl, inr, min, Option, List, ◌++◌, map, length, get_or, take, drop, length-append,
  length-take, length-drop, get_or-append_left, get_or-append_right, get_or-take, get_or-drop,
  get_or_ext, Outcome, ok, err, arith,
}
use native.Mathlib.Decide.{ℕ_discrete, dec_lt}
use rustfits.Cache.Lru.{Bytes, LruCrate}
use rustfits.Storage.Bytes.{byte_at}
use rustfits.Remote.{
  Network, HttpRangeStore, RemoteError, cached_blocks, and_then, fetch_runs, RemoteIo, copy_blocks,
  finish, read_span, read, is_some,
}
use rustfits.Remote.Plan.{plan_block_fetches}
use rustfits.Remote.Blocks.{block_of}
use rustfits.Remote.Runs.{plan_block_fetches-covers}
use rustfits.Remote.Slots.{IsSlots-IsFull, cached_blocks-IsSlots}
use rustfits.Remote.Fetch.{IsView, Gives, IsTruthful, IsFetched, fetch_runs-Gives}
use rustfits.Remote.Span.{first_of, count_of, first_of-IsSpan, planned-IsWithin}
use rustfits.Remote.Copy.{IsCopied, copy_blocks-IsCopied}

-- `want` bytes of the file from `p` on, and the rest of the buffer as it was.
abbrev pub filled_buffer : List ℕ → ℕ → ℕ → List ℕ → List ℕ
filled_buffer file p want buf = take want (drop p file) ++ drop want buf

IsCopied-filled_buffer :
    (file : List ℕ) (block_bytes p want stop : ℕ) (buf new : List ℕ)
    → want ≤ length buf
    → p + want ≤ length file
    → p + want ≤ stop
    → IsCopied file block_bytes p want buf stop new
    → new ≡ filled_buffer file p want buf
IsCopied-filled_buffer file block_bytes p want stop buf new fits inside enough c =
    let len = c.len in
    let front = take want (drop p file) in
    let size : length front ≡ want =
      omega (arith, length-take want (drop p file), length-drop p file) in
    get_or_ext 0 new (filled_buffer file p want buf)
      (omega (arith, length-append front (drop want buf), length-drop want buf))
      (λ k low. elim (dec_lt k want) [
        | yes h ↦
            c.right k h (omega arith)
            ∙ sym (
                get_or-append_left 0 front (drop want buf) k (omega arith)
                ∙ get_or-take 0 want k (drop p file) h
                ∙ get_or-drop 0 p k file)
        | no h ↦
            let e : want + (k - length front) ≡ k = omega arith in
            c.kept k (omega arith)
            ∙ sym (
                get_or-append_right 0 front (drop want buf) k (omega arith)
                ∙ get_or-drop 0 want (k - length front) buf
                ∙ ap (byte_at buf) e)
      ])

module _ (net : Network) (lru : LruCrate ℕ_discrete) (file : List ℕ) (block_bytes : ℕ) where
  -- The answer of `read` at position `p`: the bytes of the file there, as many as it has and the
  -- buffer takes, or an error. The store is a view of the file still, behind those bytes or where
  -- it was.
  abbrev pub IsRead :
      ℕ → List ℕ → Outcome RemoteError (ℕ × List ℕ) × HttpRangeStore net lru → Type 0
  IsRead p buf (ok (n, new), s) =
      (n ≡ min (length buf) (length file - p))
      × (new ≡ filled_buffer file p n buf)
      × IsView net lru file block_bytes (p + n) s
  IsRead p buf (err e, s) = IsView net lru file block_bytes p s

  module _ (honest : IsTruthful net lru file block_bytes) (pos_block : 0 < block_bytes)
      (small : length file + block_bytes < 2 ^ 63) where
    and_then-IsRead :
        {A : Type 0}
        → (P : A → Type 0) (p : ℕ) (buf : List ℕ)
          (r : Outcome RemoteError A × HttpRangeStore net lru)
          (k : A → RemoteIo net lru (ℕ × List ℕ))
        → Gives net lru file block_bytes P p r
        → ((a : A) (s : HttpRangeStore net lru)
            → P a
            → IsView net lru file block_bytes p s
            → IsRead p buf (k a s))
        → IsRead p buf (and_then net lru r k)
    and_then-IsRead P p buf (ok a, s) k (h, v) f = f a s h v
    and_then-IsRead P p buf (err e, s) k v f = v

    -- The span is copied out of the blocks that the cache had and those that were fetched.
    pub fetched-copied :
        (p want : ℕ) (buf : List ℕ) (slots blocks : List (Option Bytes))
        → 0 < want
        → want ≡ min (length buf) (length file - p)
        → length slots ≡ count_of block_bytes p want
        → IsFetched net lru file block_bytes honest small
            (first_of block_bytes p)
            (plan_block_fetches (first_of block_bytes p) (map is_some slots))
            slots
            blocks
        → copy_blocks block_bytes (first_of block_bytes p) p (p + want) blocks buf
          ≡ ok (filled_buffer file p want buf)
    fetched-copied p want buf slots blocks some_bytes as_much n f =
        let B = block_bytes in
        let first = first_of block_bytes p in
        let have = map is_some slots in
        let span = first_of-IsSpan block_bytes p want pos_block some_bytes in
        let begins = span.begins in
        let reaches = span.reaches in
        let ends = span.ends in
        let count = f.count in
        let n_is : length blocks ≡ count_of block_bytes p want = count ∙ n in
        let blocks_bytes : length blocks * B ≡ count_of block_bytes p want * B =
          ap (λ (k : ℕ). k * B) n_is in
        let full = IsSlots-IsFull (block_of file B) first blocks f.slots_right (λ i low.
          elim (Bool-cases (get_or have i true)) [
            | inl here ↦ f.kept i here
            | inr gone ↦ f.filled i (plan_block_fetches-covers first i have gone)
          ]) in
        let (new, ran, c) =
          copy_blocks-IsCopied file B p want buf (omega arith) (omega arith) small first blocks buf
            full (omega arith) span.not_late
            (record {
              len = refl;
              right = λ k in_span low. absurd (omega arith);
              kept = λ k high. refl;
            }) in
        ran
        ∙ ap ok (
            IsCopied-filled_buffer file B p want (first * B + length blocks * B) buf new
              (omega arith) (omega arith) (omega arith) c)

    read_span-IsRead :
        (p want : ℕ) (buf : List ℕ) (s : HttpRangeStore net lru)
        → 0 < want
        → want ≡ min (length buf) (length file - p)
        → IsView net lru file block_bytes p s
        → IsRead p buf (read_span net lru want buf s)
    unfolding read_span
    read_span-IsRead p want buf s some_bytes as_much v =
        let B = block_bytes in
        let first = first_of block_bytes p in
        let n = count_of block_bytes p want in
        let cached = cached_blocks lru first n s.cache in
        let slots = cached.0 in
        let (right, n_is, cache_right) =
          cached_blocks-IsSlots (block_of file B) lru first n s.cache v.cache_is in
        let runs = plan_block_fetches first (map is_some slots) in
        let span = first_of-IsSpan block_bytes p want pos_block some_bytes in
        let ends = span.ends in
        let high : (first + n) * B < length file + B = omega (arith, add-mul first n B) in
        rw (v.pos_is, v.block_bytes_is)
          (and_then-IsRead (IsFetched net lru file B honest small first runs slots) p buf
            (fetch_runs net lru first runs slots
              (record s { pos = p; block_bytes = B; cache = cached.1 }))
            (λ blocks. finish net lru want (p + want) (copy_blocks B first p (p + want) blocks buf))
            (fetch_runs-Gives net lru file B honest small first (first + n) p runs slots
              (record s { pos = p; block_bytes = B; cache = cached.1 }) high
              (planned-IsWithin first n slots n_is) right
              (record {
                len_is = v.len_is;
                block_bytes_is = refl;
                pos_is = refl;
                cache_is = cache_right;
              }))
            (λ blocks s' f v'.
              rw (fetched-copied p want buf slots blocks some_bytes as_much n_is f) (
                as_much,
                refl,
                record {
                  len_is = v'.len_is;
                  block_bytes_is = v'.block_bytes_is;
                  pos_is = refl;
                  cache_is = v'.cache_is;
                },
              )))

    -- `read` of a remote file in blocks of at least a byte, on a cache of blocks of the file: the
    -- answer is the bytes of the file from the position on, as many as it has and the buffer takes,
    -- with the position behind them; or an error, with the position where it was. Either way the
    -- cache holds blocks of the file only. What the server sends with a status of 206 is what was
    -- asked for, or its first bytes; and the sizes of the file and of a block are below 2^63
    -- together.
    pub read-IsRead :
        (p : ℕ) (buf : List ℕ) (s : HttpRangeStore net lru)
        → IsView net lru file block_bytes p s
        → IsRead p buf (read net lru buf s)
    unfolding read
    read-IsRead p buf s v = elim (Bool-cases (length buf == 0 || leb s.len s.pos)) [
      | inl t ↦
          let len = v.len_is in
          let at_p = v.pos_is in
          rw t (
            ground (arith, t),
            refl,
            record {
              len_is = len;
              block_bytes_is = v.block_bytes_is;
              pos_is = omega arith;
              cache_is = v.cache_is;
            },
          )
      | inr f ↦
          let len = v.len_is in
          let at_p = v.pos_is in
          rw f (
            read_span-IsRead p (min (length buf) (s.len - s.pos)) buf s (ground (arith, f))
              (ground (arith, len, at_p)) v)
    ]
