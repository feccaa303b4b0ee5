-- ===== src/Remote/Fetch.antt =====
-- remote_range.rs: what `fetch_blocks` and the loop over the runs make of the server's answers.
use rustfits.Prelude.{
  suc-mul, add-mul, ℕ, zero, suc, ◌+◌, ◌-◌, ◌*◌, ◌^◌, ◌≤◌, ◌<◌, ◌≡◌, refl, sym, ap, ◌∙◌, inl, inr,
  Bool, true, false, if◌then◌else◌, ◌==◌, ltb, min, Option, List, [], ◌∷◌, length, take, drop,
  length-drop, Outcome, ok, err, arith,
}
use native.Mathlib.Nat.{mul-le-mul_right}
use native.Mathlib.Decide.{ℕ_discrete}
use rustfits.Cache.{BytesBoundLruCache}
use rustfits.Cache.Lru.{Bytes, LruCrate}
use rustfits.Remote.{
  Network, Reply, no_reply, response, HttpRangeStore, RemoteError, Blocks, mul_u64, read_blocks,
  fetch_blocks, on_reply, and_then, RemoteIo, stored, fetch_runs, store_blocks, short_body,
  with_block, counted, count_request, bad_status,
}
use rustfits.Remote.Blocks.{block_of, take-take_short, take-min, drop-take, drop-drop}
use rustfits.Remote.Cached.{IsBlockCache}
use rustfits.Remote.Slots.{IsSlots, right_blocks, IsFilled, IsStored, store_blocks-IsStored}
use rustfits.Remote.Runs.{InRuns, IsWithin}

module _ (net : Network) (lru : LruCrate ℕ_discrete) (file : List ℕ) (block_bytes : ℕ) where
  -- The store is a view of the file at a position.
  pub record IsView (p : ℕ) (s : HttpRangeStore net lru) : Type 0 where
    pub len_is : s.len ≡ length file
    pub block_bytes_is : s.block_bytes ≡ block_bytes
    pub pos_is : s.pos ≡ p
    pub cache_is : IsBlockCache (block_of file block_bytes) lru s.cache

  -- A result has the property, and the store is still such a view, after an error too.
  abbrev pub Gives :
      {A : Type 0} → (A → Type 0) → ℕ → Outcome RemoteError A × HttpRangeStore net lru → Type 0
  Gives P p (ok a, s) = P a × IsView p s
  Gives P p (err e, s) = IsView p s

  pub and_then-Gives :
      {A B : Type 0}
      → (P : A → Type 0) (Q : B → Type 0) (p : ℕ)
        (r : Outcome RemoteError A × HttpRangeStore net lru) (k : A → RemoteIo net lru B)
      → Gives P p r
      → ((a : A) (s : HttpRangeStore net lru) → P a → IsView p s → Gives Q p (k a s))
      → Gives Q p (and_then net lru r k)
  and_then-Gives P Q p (ok a, s) k (h, v) f = f a s h v
  and_then-Gives P Q p (err e, s) k v f = v

  -- A server that is asked for bytes and answers 206 sends those bytes, or the first of them.
  abbrev pub IsTruthful : Type 0
  IsTruthful =
      (first last : ℕ) (agent : net.Agent) (body : List ℕ)
      → (net.call first last agent).0 ≡ response 206 body
      → (n : ℕ) × (body ≡ take n (drop first file))

  -- The next block of a body that is long enough.
  next_block :
      (b n : ℕ)
      → min block_bytes (length file - b * block_bytes)
        ≤ length (take n (drop (b * block_bytes) file))
      → take
          (min block_bytes (length file - b * block_bytes))
          (take n (drop (b * block_bytes) file))
        ≡ block_of file block_bytes b
  next_block b n h =
      let l = drop (b * block_bytes) file in
      let size : min block_bytes (length file - b * block_bytes) ≡ min block_bytes (length l) =
        omega (arith, length-drop (b * block_bytes) file) in
      take-take_short (min block_bytes (length file - b * block_bytes)) n l h
      ∙ ap (λ (k : ℕ). take k l) size
      ∙ take-min block_bytes l

  -- What follows a whole block.
  later_blocks :
      (b n : ℕ)
      → drop block_bytes (take n (drop (b * block_bytes) file))
        ≡ take (n - block_bytes) (drop (suc b * block_bytes) file)
  later_blocks b n =
      drop-take block_bytes n (drop (b * block_bytes) file)
      ∙ ap (take (n - block_bytes)) (
          drop-drop block_bytes (b * block_bytes) file
          ∙ ap (λ (k : ℕ). drop k file) (sym (suc-mul b block_bytes)))

  Gives-unless :
      {A : Type 0}
      → (P : A → Type 0) (p : ℕ) (c : Bool)
        (r other : Outcome RemoteError A × HttpRangeStore net lru)
      → Gives P p r
      → (c ≡ false → Gives P p other)
      → Gives P p (if c then r else other)
  Gives-unless P p true r other h h' = h
  Gives-unless P p false r other h h' = h' refl

  with_block-Gives :
      (n b p : ℕ) (block : Bytes) (r : Outcome RemoteError Blocks × HttpRangeStore net lru)
      → block ≡ block_of file block_bytes b
      → Gives (λ blocks. blocks ≡ right_blocks (block_of file block_bytes) n (suc b)) p r
      → Gives
          (λ blocks. blocks ≡ right_blocks (block_of file block_bytes) (suc n) b)
          p
          (with_block net lru block r)
  with_block-Gives n b p block (ok blocks, s) e (h, v) = (λ i. e i ∷ h i, v)
  with_block-Gives n b p block (err _, s) e v = v

  pub le-mul : (n k : ℕ) → 0 < n → k ≤ n * k
  le-mul zero k h = absurd (omega arith)
  le-mul (suc n) k h = omega (arith, suc-mul n k)

  read_blocks-Gives :
      (n b m p : ℕ) (body : List ℕ) (s : HttpRangeStore net lru)
      → b * block_bytes + n * block_bytes < length file + block_bytes
      → length file + block_bytes < 2 ^ 63
      → (0 < n → body ≡ take m (drop (b * block_bytes) file))
      → IsView p s
      → Gives
          (λ blocks. blocks ≡ right_blocks (block_of file block_bytes) n b)
          p
          (read_blocks net lru n b body s)
  unfolding read_blocks
  read_blocks-Gives zero b m p body s inside small sent v = (refl, v)
  read_blocks-Gives (suc n) b m p body s inside small sent v =
      let B = block_bytes in
      let more = suc-mul n block_bytes in
      let next = suc-mul b block_bytes in
      let in_word : mul_u64 b B ≡ b * B = omega arith in
      let expect = min B (length file - b * B) in
      let expect_is : min s.block_bytes (s.len - mul_u64 b s.block_bytes) ≡ expect =
        rw (v.block_bytes_is, v.len_is, in_word) refl in
      rw expect_is (
        Gives-unless (λ blocks. blocks ≡ right_blocks (block_of file B) (suc n) b) p
          (ltb (length body) expect) (err short_body, s)
          (with_block net lru (take expect body)
            (read_blocks net lru n (suc b) (drop expect body) (counted net lru expect s)))
          v
          (λ enough.
            let is_body = sent (omega arith) in
            let long : expect ≤ length (take m (drop (b * B) file)) =
              rw⁻¹ is_body (ground (arith, enough)) in
            with_block-Gives n b p (take expect body)
              (read_blocks net lru n (suc b) (drop expect body) (counted net lru expect s))
              (ap (take expect) is_body ∙ next_block b m long)
              (read_blocks-Gives n (suc b) (m - B) p (drop expect body) (counted net lru expect s)
                (omega arith) small
                (λ some_left.
                  let room = le-mul n B some_left in
                  let whole : expect ≡ B = omega arith in
                  ap (λ (k : ℕ). drop k body) whole ∙ ap (drop B) is_body ∙ later_blocks b m)
                (record {
                  len_is = v.len_is;
                  block_bytes_is = v.block_bytes_is;
                  pos_is = v.pos_is;
                  cache_is = v.cache_is;
                }))))

  count_request-Gives :
      (P : Blocks → Type 0) (p : ℕ) (r : Outcome RemoteError Blocks × HttpRangeStore net lru)
      → Gives P p r
      → Gives P p (count_request net lru r)
  count_request-Gives P p (ok blocks, s) (h, v) = (
    h,
    record {
      len_is = v.len_is;
      block_bytes_is = v.block_bytes_is;
      pos_is = v.pos_is;
      cache_is = v.cache_is;
    },
  )
  count_request-Gives P p (err e, s) v = v

  Gives-if :
      {A : Type 0}
      → (P : A → Type 0) (p : ℕ) (c : Bool)
        (r other : Outcome RemoteError A × HttpRangeStore net lru)
      → (c ≡ true → Gives P p r)
      → Gives P p other
      → Gives P p (if c then r else other)
  Gives-if P p true r other h h' = h refl
  Gives-if P p false r other h h' = h'

  on_reply-Gives :
      (start n p : ℕ) (reply : Reply) (s : HttpRangeStore net lru)
      → start * block_bytes + n * block_bytes < length file + block_bytes
      → length file + block_bytes < 2 ^ 63
      → ((body : List ℕ)
          → reply ≡ response 206 body
          → (m : ℕ) × (body ≡ take m (drop (start * block_bytes) file)))
      → IsView p s
      → Gives
          (λ blocks. blocks ≡ right_blocks (block_of file block_bytes) n start)
          p
          (on_reply net lru start n reply s)
  on_reply-Gives start n p no_reply s inside small true_reply v = v
  on_reply-Gives start n p (response status body) s inside small true_reply v =
      let P = λ (blocks : Blocks). blocks ≡ right_blocks (block_of file block_bytes) n start in
      Gives-if P p (status == 206) (count_request net lru (read_blocks net lru n start body s))
        (err (bad_status status), s)
        (λ good.
          let is_206 : status ≡ 206 = ground (arith, good) in
          let (m, sent) = true_reply body (ap (λ (k : ℕ). response k body) is_206) in
          count_request-Gives P p (read_blocks net lru n start body s)
            (read_blocks-Gives n start m p body s inside small (λ _. sent) v))
        v

  module _ (honest : IsTruthful) (small : length file + block_bytes < 2 ^ 63) where
    pub fetch_blocks-Gives :
        (start n p : ℕ) (s : HttpRangeStore net lru)
        → start * block_bytes + n * block_bytes < length file + block_bytes
        → IsView p s
        → Gives
            (λ blocks. blocks ≡ right_blocks (block_of file block_bytes) n start)
            p
            (fetch_blocks net lru start n s)
    unfolding fetch_blocks
    fetch_blocks-Gives start n p s inside v =
        let in_word : mul_u64 start block_bytes ≡ start * block_bytes = omega arith in
        let from : mul_u64 start s.block_bytes ≡ start * block_bytes =
          ap (mul_u64 start) v.block_bytes_is ∙ in_word in
        let last_byte = min (mul_u64 (start + n) s.block_bytes) s.len - 1 in
        let called = net.call (mul_u64 start s.block_bytes) last_byte s.agent in
        on_reply-Gives start n p called.0 (record s { agent = called.1 }) inside small
          (λ body replied.
            let (m, sent) = honest (mul_u64 start s.block_bytes) last_byte s.agent body replied in
            (m, sent ∙ ap (λ (k : ℕ). take m (drop k file)) from))
          (record {
            len_is = v.len_is;
            block_bytes_is = v.block_bytes_is;
            pos_is = v.pos_is;
            cache_is = v.cache_is;
          })

    -- The slots behind the loop over the runs.
    pub record IsFetched (first : ℕ) (runs : List (ℕ × ℕ)) (slots new : List (Option Bytes))
        : Type 0 where
      pub slots_right : IsSlots (block_of file block_bytes) first new
      pub count : length new ≡ length slots
      pub kept : (j : ℕ) → IsFilled j slots → IsFilled j new
      pub filled : (j : ℕ) → InRuns runs (first + j) → IsFilled j new

    Gives-map :
        {A : Type 0}
        → (P Q : A → Type 0) (p : ℕ) (r : Outcome RemoteError A × HttpRangeStore net lru)
        → ((a : A) → P a → Q a)
        → Gives P p r
        → Gives Q p r
    Gives-map P Q p (ok a, s) f (h, v) = (f a h, v)
    Gives-map P Q p (err e, s) f v = v

    -- A run, and the loop over the others.
    IsFetched-run :
        (first : ℕ) (run : ℕ × ℕ) (runs : List (ℕ × ℕ)) (slots new : List (Option Bytes))
        (r : List (Option Bytes) × BytesBoundLruCache lru)
        → IsStored (block_of file block_bytes) lru first run.0 run.1 slots r
        → IsFetched first runs r.0 new
        → IsFetched first (run ∷ runs) slots new
    IsFetched-run first run runs slots new r st f = record {
      slots_right = f.slots_right;
      count = f.count ∙ st.count;
      kept = λ j here. f.kept j (st.kept j here);
      filled = λ j run_of. elim run_of [
        | inl here ↦ f.kept j (st.filled j here.0 here.1)
        | inr later ↦ f.filled j later
      ];
    }

    pub fetch_runs-Gives :
        (first high p : ℕ) (runs : List (ℕ × ℕ)) (slots : List (Option Bytes))
        (s : HttpRangeStore net lru)
        → high * block_bytes < length file + block_bytes
        → IsWithin first high runs
        → IsSlots (block_of file block_bytes) first slots
        → IsView p s
        → Gives (IsFetched first runs slots) p (fetch_runs net lru first runs slots s)
    unfolding fetch_runs
    fetch_runs-Gives first high p [] slots s inside w h v =
        (record { slots_right = h; count = refl; kept = λ j f. f; filled = λ j b. absurd b }, v)
    fetch_runs-Gives first high p (run ∷ runs) slots s inside ((low, top), w) h v =
        and_then-Gives (λ blocks. blocks ≡ right_blocks (block_of file block_bytes) run.1 run.0)
          (IsFetched first (run ∷ runs) slots) p (fetch_blocks net lru run.0 run.1 s)
          (λ blocks s'.
            let r = stored net lru first run.0 slots blocks s' in
            fetch_runs net lru first runs r.0 r.1)
          (fetch_blocks-Gives run.0 run.1 p s
            (omega (arith, add-mul run.0 run.1 block_bytes, mul-le-mul_right block_bytes top)) v)
          (λ blocks s' same v'.
            let right = block_of file block_bytes in
            let st =
              store_blocks-IsStored right lru first run.0 run.1 slots s'.cache low h v'.cache_is in
            let r =
              store_blocks lru first run.0 (right_blocks right run.1 run.0) (slots, s'.cache) in
            rw same (
              Gives-map (IsFetched first runs r.0) (IsFetched first (run ∷ runs) slots) p
                (fetch_runs net lru first runs r.0 (record s' { cache = r.1 }))
                (λ new f. IsFetched-run first run runs slots new r st f)
                (fetch_runs-Gives first high p runs r.0 (record s' { cache = r.1 }) inside w
                  st.slots_right
                  (record {
                    len_is = v'.len_is;
                    block_bytes_is = v'.block_bytes_is;
                    pos_is = v'.pos_is;
                    cache_is = st.cache_right;
                  }))))
