-- ===== src/Remote.antt =====
-- remote_range.rs: a read-only view of a remote file, in blocks that are fetched and cached.
pub mod Plan
pub mod Blocks
pub mod Cached
pub mod Runs
pub mod Slots
pub mod Fetch
pub mod Copy
pub mod Span
pub mod Read
pub mod Served
mod Tests
use rustfits.Prelude.{
  ℕ, zero, suc, ◌+◌, ◌-◌, ◌*◌, ◌/◌, ◌%◌, ◌^◌, ◌==◌, ltb, leb, ◌||◌, if◌then◌else◌, min, max, Bool,
  true, false, Option, none, some, List, [], ◌∷◌, map, length, get_or, take, drop, Outcome, ok, err,
  ◌>>=◌,
}
use native.Mathlib.Decide.{ℕ_discrete}
use rustfits.Cache.{BytesBoundLruCache, get, put}
use rustfits.Cache.Lru.{Bytes, LruCrate}
use rustfits.Storage.Bytes.{overwrite}
use Plan.{plan_block_fetches}

-- An `i64`; `negsuc n` is -(n + 1).
pub data ℤ : Type 0 where
  pos negsuc : ℕ → ℤ

pub data SeekFrom : Type 0 where
  start : ℕ → SeekFrom
  end current : ℤ → SeekFrom

pub data RemoteError : Type 0 where
  request_failed short_body negative_position missing_block slice_out_of_range : RemoteError
  bad_status : ℕ → RemoteError

-- `checked_add` and `checked_sub` on a u64.
pub add_offset : ℕ → ℤ → Option ℕ
add_offset base (pos d) = if ltb (base + d) (2 ^ 64) then some (base + d) else none
add_offset base (negsuc d) = if leb (suc d) base then some (base - suc d) else none

-- `missing_block` and `slice_out_of_range` are panics.

-- What a server answers to a request for a range of bytes.
pub data Reply : Type 0 where
  no_reply : Reply
  response : ℕ → List ℕ → Reply

-- The crate `ureq`, with the URL and the headers of one open file, and the server behind it.
pub record Network : Type 1 where
  pub Agent : Type 0
  pub call : ℕ → ℕ → Agent → Reply × Agent

abbrev pub mul_u64 : ℕ → ℕ → ℕ
mul_u64 a b = a * b % 2 ^ 64

abbrev pub Blocks : Type 0
Blocks = List Bytes

-- `blocks[i] = Some(block)`
abbrev pub set_at : ℕ → Bytes → List (Option Bytes) → List (Option Bytes)
set_at i block [] = []
set_at zero block (o ∷ os) = some block ∷ os
set_at (suc i) block (o ∷ os) = o ∷ set_at i block os

-- The part of a block that lies in the span, copied to its place in `buf`.
abbrev pub copy_block : ℕ → ℕ → ℕ → Bytes → List ℕ → Outcome RemoteError (List ℕ)
copy_block block_start span_start span_end blk buf =
    let copy_from = max span_start block_start in
    let copy_to = min span_end (block_start + length blk) in
    let part = drop (copy_from - block_start) (take (copy_to - block_start) blk) in
    if leb copy_from copy_to
    then ok (overwrite buf (copy_from - span_start) part)
    else err slice_out_of_range

unfoldable pub copy_blocks :
    ℕ → ℕ → ℕ → ℕ → List (Option Bytes) → List ℕ → Outcome RemoteError (List ℕ)
copy_blocks block_bytes b span_start span_end [] buf = ok buf
copy_blocks block_bytes b span_start span_end (none ∷ slots) buf = err missing_block
copy_blocks block_bytes b span_start span_end (some blk ∷ slots) buf =
    copy_block (mul_u64 b block_bytes) span_start span_end blk buf >>= λ buf'.
    copy_blocks block_bytes (suc b) span_start span_end slots buf'

abbrev pub is_some : Option Bytes → Bool
is_some none = false
is_some (some block) = true

module _ (lru : LruCrate ℕ_discrete) where
  -- The blocks of a span: those that the cache has.
  unfoldable pub cached_blocks :
      ℕ → ℕ → BytesBoundLruCache lru → List (Option Bytes) × BytesBoundLruCache lru
  cached_blocks first zero c = ([], c)
  cached_blocks first (suc n) c =
      let (hit, c') = get lru first c in
      let (hits, c'') = cached_blocks (suc first) n c' in (hit ∷ hits, c'')

  -- The blocks of a run, put into the cache and into the span that begins at block `first`.
  unfoldable pub store_blocks :
      ℕ
      → ℕ
      → Blocks
      → List (Option Bytes) × BytesBoundLruCache lru
      → List (Option Bytes) × BytesBoundLruCache lru
  store_blocks first b [] r = r
  store_blocks first b (block ∷ blocks) (slots, c) =
      store_blocks first (suc b) blocks (set_at (b - first) block slots, put lru b block c)

module _ (net : Network) (lru : LruCrate ℕ_discrete) where
  pub record HttpRangeStore : Type 0 where
    pub agent : net.Agent
    pub len : ℕ
    pub pos : ℕ
    pub block_bytes : ℕ
    pub cache : BytesBoundLruCache lru
    pub bytes_fetched : ℕ
    pub requests : ℕ

  abbrev pub RemoteIo : Type 0 → Type 0
  RemoteIo A = HttpRangeStore → Outcome RemoteError A × HttpRangeStore

  abbrev pub counted : ℕ → HttpRangeStore → HttpRangeStore
  counted n s = record s { bytes_fetched = (s.bytes_fetched + n) % 2 ^ 64 }

  abbrev pub with_block :
      Bytes
      → Outcome RemoteError Blocks × HttpRangeStore
      → Outcome RemoteError Blocks × HttpRangeStore
  with_block block (ok blocks, s) = (ok (block ∷ blocks), s)
  with_block block (err e, s) = (err e, s)

  -- `n` blocks from block `b` on, read off the body of a response.
  unfoldable pub read_blocks : ℕ → ℕ → List ℕ → RemoteIo Blocks
  read_blocks zero b body s = (ok [], s)
  read_blocks (suc n) b body s =
      let expect = min s.block_bytes (s.len - mul_u64 b s.block_bytes) in
      let rest = read_blocks n (suc b) (drop expect body) (counted expect s) in
      if ltb (length body) expect then (err short_body, s) else with_block (take expect body) rest

  abbrev pub count_request :
      Outcome RemoteError Blocks × HttpRangeStore → Outcome RemoteError Blocks × HttpRangeStore
  count_request (ok blocks, s) = (ok blocks, record s { requests = suc s.requests % 2 ^ 64 })
  count_request (err e, s) = (err e, s)

  abbrev pub on_reply : ℕ → ℕ → Reply → RemoteIo Blocks
  on_reply start_block n_blocks no_reply s = (err request_failed, s)
  on_reply start_block n_blocks (response status body) s =
      if status == 206
      then count_request (read_blocks n_blocks start_block body s)
      else (err (bad_status status), s)

  unfoldable pub fetch_blocks : ℕ → ℕ → RemoteIo Blocks
  fetch_blocks start_block n_blocks s =
      let first_byte = mul_u64 start_block s.block_bytes in
      let last_byte = min (mul_u64 (start_block + n_blocks) s.block_bytes) s.len - 1 in
      let (reply, agent) = net.call first_byte last_byte s.agent in
      on_reply start_block n_blocks reply (record s { agent = agent })

  abbrev pub stored :
      ℕ → ℕ → List (Option Bytes) → Blocks → HttpRangeStore → List (Option Bytes) × HttpRangeStore
  stored first run_start slots blocks s =
      let r = store_blocks lru first run_start blocks (slots, s.cache) in
      (r.0, record s { cache = r.1 })

  abbrev pub and_then :
      {A B : Type 0}
      → Outcome RemoteError A × HttpRangeStore
      → (A → RemoteIo B)
      → Outcome RemoteError B × HttpRangeStore
  and_then (ok a, s) k = k a s
  and_then (err e, s) k = (err e, s)

  -- The loop over the runs of blocks that are missing.
  unfoldable pub fetch_runs :
      ℕ → List (ℕ × ℕ) → List (Option Bytes) → RemoteIo (List (Option Bytes))
  fetch_runs first [] slots s = (ok slots, s)
  fetch_runs first (run ∷ runs) slots s =
      and_then (fetch_blocks run.0 run.1 s)
        (λ blocks s'. let r = stored first run.0 slots blocks s' in fetch_runs first runs r.0 r.1)

  abbrev pub finish : ℕ → ℕ → Outcome RemoteError (List ℕ) → RemoteIo (ℕ × List ℕ)
  finish want span_end (ok buf) s = (ok (want, buf), record s { pos = span_end })
  finish want span_end (err e) s = (err e, s)

  -- `read` of a span that is not empty: the number of bytes read, and the buffer afterwards.
  unfoldable pub read_span : ℕ → List ℕ → RemoteIo (ℕ × List ℕ)
  read_span want buf s =
      let span_start = s.pos in
      let span_end = span_start + want in
      let first_block = span_start / s.block_bytes in
      let last_block = (span_end - 1) / s.block_bytes in
      let (slots, c) = cached_blocks lru first_block (suc last_block - first_block) s.cache in
      and_then
        (fetch_runs first_block (plan_block_fetches first_block (map is_some slots)) slots
          (record s { cache = c }))
        (λ blocks.
          finish want span_end
            (copy_blocks s.block_bytes first_block span_start span_end blocks buf))

  unfoldable pub read : List ℕ → RemoteIo (ℕ × List ℕ)
  read buf s =
      if length buf == 0 || leb s.len s.pos
      then (ok (0, buf), s)
      else read_span (min (length buf) (s.len - s.pos)) buf s

  abbrev seek_to : Option ℕ → RemoteIo ℕ
  seek_to none s = (err negative_position, s)
  seek_to (some p) s = (ok p, record s { pos = p })

  unfoldable pub seek : SeekFrom → RemoteIo ℕ
  seek (start p) s = seek_to (some p) s
  seek (end d) s = seek_to (add_offset s.len d) s
  seek (current d) s = seek_to (add_offset s.pos d) s
