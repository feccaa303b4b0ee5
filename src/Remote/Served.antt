-- ===== src/Remote/Served.antt =====
-- remote_range.rs: `read` where the server answers what it is asked.
use rustfits.Prelude.{
  add-mul, suc-mul, ℕ, zero, suc, ◌+◌, ◌-◌, ◌*◌, ◌^◌, ◌≤◌, ◌<◌, ◌≡◌, refl, false, Bool-cases, ◌||◌,
  ◌==◌, ltb, leb, inl, inr, min, Option, List, [], ◌∷◌, map, length, take, drop, length-take,
  length-drop, Outcome, ok, err, arith,
}
use native.Mathlib.Decide.{ℕ_discrete}
use native.Mathlib.Nat.{mul-le-mul_right}
use rustfits.Cache.Lru.{Bytes, LruCrate}
use rustfits.Remote.{
  Network, response, HttpRangeStore, RemoteError, RemoteIo, Blocks, mul_u64, read_blocks,
  with_block, counted, count_request, fetch_blocks, and_then, stored, store_blocks, fetch_runs,
  cached_blocks, is_some, copy_blocks, finish, read_span, read,
}
use rustfits.Remote.Plan.{plan_block_fetches}
use rustfits.Remote.Blocks.{block_of}
use rustfits.Remote.Runs.{IsWithin, IsCoalesced, expand-plan_block_fetches}
use rustfits.Remote.Slots.{IsSlots, right_blocks, cached_blocks-IsSlots, store_blocks-IsStored}
use rustfits.Remote.Span.{first_of, count_of, first_of-IsSpan, planned-IsWithin}
use rustfits.Remote.Read.{fetched-copied}
use rustfits.Remote.Fetch.{
  IsView, Gives, IsTruthful, IsFetched, fetch_blocks-Gives, fetch_runs-Gives, le-mul,
}

module _ (net : Network) (lru : LruCrate ℕ_discrete) (file : List ℕ) (block_bytes : ℕ) where
  -- A server that sends the bytes it is asked for, with status 206.
  abbrev pub IsServing : Type 0
  IsServing =
      (first last : ℕ) (agent : net.Agent)
      → first ≤ last
      → last < length file
      → (net.call first last agent).0 ≡ response 206 (take (suc last - first) (drop first file))

  abbrev pub Succeeds : {A : Type 0} → Outcome RemoteError A × HttpRangeStore net lru → Type 0
  Succeeds (ok a, s) = Unit
  Succeeds (err e, s) = ⊥

  and_then-Succeeds :
      {A B : Type 0}
      → (P : A → Type 0) (p : ℕ) (r : Outcome RemoteError A × HttpRangeStore net lru)
        (k : A → RemoteIo net lru B)
      → Gives net lru file block_bytes P p r
      → Succeeds r
      → ((a : A) (s : HttpRangeStore net lru)
          → P a
          → IsView net lru file block_bytes p s
          → Succeeds (k a s))
      → Succeeds (and_then net lru r k)
  and_then-Succeeds P p (ok a, s) k (h, v) good f = f a s h v
  and_then-Succeeds P p (err e, s) k v good f = absurd good

  with_block-Succeeds :
      (block : Bytes) (r : Outcome RemoteError Blocks × HttpRangeStore net lru)
      → Succeeds r
      → Succeeds (with_block net lru block r)
  with_block-Succeeds block (ok blocks, s) good = tt
  with_block-Succeeds block (err e, s) good = good

  count_request-Succeeds :
      (r : Outcome RemoteError Blocks × HttpRangeStore net lru)
      → Succeeds r
      → Succeeds (count_request net lru r)
  count_request-Succeeds (ok blocks, s) good = tt
  count_request-Succeeds (err e, s) good = good

  module _ (small : length file + block_bytes < 2 ^ 63) where
    read_blocks-Succeeds :
        (n b p : ℕ) (body : List ℕ) (s : HttpRangeStore net lru)
        → b * block_bytes + n * block_bytes < length file + block_bytes
        → length body ≡ min (b * block_bytes + n * block_bytes) (length file) - b * block_bytes
        → IsView net lru file block_bytes p s
        → Succeeds (read_blocks net lru n b body s)
    unfolding read_blocks
    read_blocks-Succeeds zero b p body s inside size v = tt
    read_blocks-Succeeds (suc n) b p body s inside size v =
        let B = block_bytes in
        let more = suc-mul n B in
        let next = suc-mul b B in
        let in_word : mul_u64 b B ≡ b * B = omega arith in
        let expect = min B (length file - b * B) in
        let expect_is : min s.block_bytes (s.len - mul_u64 b s.block_bytes) ≡ expect =
          rw (v.block_bytes_is, v.len_is, in_word) refl in
        let t : ltb (length body) expect ≡ false = ground arith in
        rw (expect_is, t)
          (with_block-Succeeds (take expect body)
            (read_blocks net lru n (suc b) (drop expect body) (counted net lru expect s))
            (read_blocks-Succeeds n (suc b) p (drop expect body) (counted net lru expect s)
              (omega arith) (omega (arith, length-drop expect body))
              (record {
                len_is = v.len_is;
                block_bytes_is = v.block_bytes_is;
                pos_is = v.pos_is;
                cache_is = v.cache_is;
              })))

    module _ (serving : IsServing) where
      fetch_blocks-Succeeds :
          (start n p : ℕ) (s : HttpRangeStore net lru)
          → 0 < n
          → start * block_bytes + n * block_bytes < length file + block_bytes
          → 0 < block_bytes
          → IsView net lru file block_bytes p s
          → Succeeds (fetch_blocks net lru start n s)
      unfolding fetch_blocks
      fetch_blocks-Succeeds start n p s some inside pos_block v =
          let B = block_bytes in
          let room = le-mul net lru file B n B some in
          let parts = add-mul start n B in
          let first = start * B in
          let last = min ((start + n) * B) (length file) - 1 in
          let from : mul_u64 start B ≡ first = omega arith in
          let to : mul_u64 (start + n) B ≡ (start + n) * B = omega arith in
          let body = take (suc last - first) (drop first file) in
          let st = record s {
            agent = (net.call first last s.agent).1;
            len = length file;
            block_bytes = B;
          } in
          rw
            (
              v.block_bytes_is,
              v.len_is,
              from,
              to,
              serving first last s.agent (omega arith) (omega arith),
            )
            (count_request-Succeeds (read_blocks net lru n start body st) (
              read_blocks-Succeeds n start p body st inside
                (omega
                  (arith, length-take (suc last - first) (drop first file), length-drop first file))
                (record {
                  len_is = refl;
                  block_bytes_is = refl;
                  pos_is = v.pos_is;
                  cache_is = v.cache_is;
                })))

      module _ (honest : IsTruthful net lru file block_bytes) (pos_block : 0 < block_bytes) where
        fetch_runs-Succeeds :
            (first high low p : ℕ) (runs : List (ℕ × ℕ)) (slots : List (Option Bytes))
            (s : HttpRangeStore net lru)
            → high * block_bytes < length file + block_bytes
            → IsWithin first high runs
            → IsCoalesced low runs
            → IsSlots (block_of file block_bytes) first slots
            → IsView net lru file block_bytes p s
            → Succeeds (fetch_runs net lru first runs slots s)
        unfolding fetch_runs
        fetch_runs-Succeeds first high low p [] slots s inside w c h v = tt
        fetch_runs-Succeeds first high low p (run ∷ runs) slots s inside ((above, top), w)
              (_, some, c) h v =
            let right = block_of file block_bytes in
            let here : run.0 * block_bytes + run.1 * block_bytes < length file + block_bytes =
              omega (arith, add-mul run.0 run.1 block_bytes, mul-le-mul_right block_bytes top) in
            and_then-Succeeds (λ blocks. blocks ≡ right_blocks right run.1 run.0) p
              (fetch_blocks net lru run.0 run.1 s)
              (λ blocks s'.
                let r = stored net lru first run.0 slots blocks s' in
                fetch_runs net lru first runs r.0 r.1)
              (fetch_blocks-Gives net lru file block_bytes honest small run.0 run.1 p s here v)
              (fetch_blocks-Succeeds run.0 run.1 p s some here pos_block v)
              (λ blocks s' same v'.
                let st =
                  store_blocks-IsStored right lru first run.0 run.1 slots s'.cache above h
                    v'.cache_is in
                let r =
                  store_blocks lru first run.0 (right_blocks right run.1 run.0) (slots, s'.cache) in
                rw same (
                  fetch_runs-Succeeds first high (suc (run.0 + run.1)) p runs r.0
                    (record s' { cache = r.1 }) inside w c st.slots_right
                    (record {
                      len_is = v'.len_is;
                      block_bytes_is = v'.block_bytes_is;
                      pos_is = v'.pos_is;
                      cache_is = st.cache_right;
                    })))

        read_span-Succeeds :
            (p want : ℕ) (buf : List ℕ) (s : HttpRangeStore net lru)
            → 0 < want
            → want ≡ min (length buf) (length file - p)
            → IsView net lru file block_bytes p s
            → Succeeds (read_span net lru want buf s)
        unfolding read_span
        read_span-Succeeds p want buf s some_bytes as_much v =
            let B = block_bytes in
            let first = first_of B p in
            let n = count_of B p want in
            let cached = cached_blocks lru first n s.cache in
            let slots = cached.0 in
            let (right, n_is, cache_right) =
              cached_blocks-IsSlots (block_of file B) lru first n s.cache v.cache_is in
            let start = record s { pos = p; block_bytes = B; cache = cached.1 } in
            let view : IsView net lru file B p start = record {
              len_is = v.len_is;
              block_bytes_is = refl;
              pos_is = refl;
              cache_is = cache_right;
            } in
            let runs = plan_block_fetches first (map is_some slots) in
            let within = planned-IsWithin first n slots n_is in
            let span = first_of-IsSpan B p want pos_block some_bytes in
            let ends = span.ends in
            let high : (first + n) * B < length file + B = omega (arith, add-mul first n B) in
            let (_, coalesced) = expand-plan_block_fetches first (map is_some slots) in
            rw (v.pos_is, v.block_bytes_is)
              (and_then-Succeeds (IsFetched net lru file B honest small first runs slots) p
                (fetch_runs net lru first runs slots start)
                (λ blocks.
                  finish net lru want (p + want) (copy_blocks B first p (p + want) blocks buf))
                (fetch_runs-Gives net lru file B honest small first (first + n) p runs slots start
                  high within right view)
                (fetch_runs-Succeeds first (first + n) first p runs slots start high within
                  coalesced right view)
                (λ blocks s' f v'.
                  rw
                    (fetched-copied net lru file B honest pos_block small p want buf slots blocks
                      some_bytes as_much n_is f)
                    tt))

        -- `read` of a remote file does not fail, where the server answers each request inside the
        -- file with status 206 and the bytes that it asks for, and to no request with that status
        -- and other bytes. The file is read in blocks of at least a byte, the cache holds blocks
        -- of the file, and the sizes of the file and of a block are below 2^63 together.
        pub read-Succeeds :
            (p : ℕ) (buf : List ℕ) (s : HttpRangeStore net lru)
            → IsView net lru file block_bytes p s
            → Succeeds (read net lru buf s)
        unfolding read
        read-Succeeds p buf s v = elim (Bool-cases (length buf == 0 || leb s.len s.pos)) [
          | inl t ↦ rw t tt
          | inr f ↦
              let len = v.len_is in
              let at_p = v.pos_is in
              rw f (
                read_span-Succeeds p (min (length buf) (s.len - s.pos)) buf s (ground (arith, f))
                  (ground (arith, len, at_p)) v)
        ]
