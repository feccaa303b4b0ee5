-- ===== src/Remote/Tests.antt =====
-- Tests of remote_range.rs, those of its own `tests` first, and an instance of each theorem.
use rustfits.Prelude.{
  ℕ, suc, ◌-◌, ◌^◌, ◌≡◌, refl, sym, ap, Bool, true, false, none, some, List, [], ◌∷◌, take, drop,
  arith,
}
use rustfits.Cache.{new}
use rustfits.Cache.ListLru.{list_lru}
use rustfits.Remote.{
  Network, Reply, no_reply, response, HttpRangeStore, add_offset, pos, negsuc, read,
}
use rustfits.Remote.Plan.{plan_block_fetches, plan_loop, run_loop}
use rustfits.Remote.Blocks.{block_of}
use rustfits.Remote.Cached.{new-IsBlockCache}
use rustfits.Remote.Runs.{expand, missing, IsCoalesced, expand-plan_block_fetches}
use rustfits.Remote.Fetch.{IsView, IsTruthful}
use rustfits.Remote.Read.{IsRead, read-IsRead}
use rustfits.Remote.Served.{IsServing, Succeeds, read-Succeeds}

abbrev some_have : List Bool
some_have = false ∷ true ∷ false ∷ false ∷ true ∷ false ∷ []

nothing_missing : plan_block_fetches 3 (true ∷ true ∷ []) ≡ []
unfolding plan_block_fetches plan_loop run_loop
nothing_missing = refl

all_missing : plan_block_fetches 5 (false ∷ false ∷ false ∷ false ∷ []) ≡ (5, 4) ∷ []
unfolding plan_block_fetches plan_loop run_loop
all_missing = refl

interior_hits : plan_block_fetches 0 some_have ≡ (0, 1) ∷ (2, 2) ∷ (5, 1) ∷ []
unfolding plan_block_fetches plan_loop run_loop
interior_hits = refl

outer_hits : plan_block_fetches 7 (true ∷ false ∷ false ∷ true ∷ []) ≡ (8, 2) ∷ []
unfolding plan_block_fetches plan_loop run_loop
outer_hits = refl

offset_forward : add_offset 10 (pos 5) ≡ some 15
unfolding add_offset
offset_forward = refl

offset_to_start : add_offset 10 (negsuc 9) ≡ some 0
unfolding add_offset
offset_to_start = refl

offset_before_start : add_offset 10 (negsuc 10) ≡ none
unfolding add_offset
offset_before_start = refl

offset_over : add_offset (2 ^ 64 - 1) (pos 1) ≡ none
unfolding add_offset
offset_over = refl

expand-plan_block_fetches_example :
    (expand (plan_block_fetches 4 some_have) ≡ missing 4 some_have)
    × IsCoalesced 4 (plan_block_fetches 4 some_have)
expand-plan_block_fetches_example = expand-plan_block_fetches 4 some_have

abbrev some_file : List ℕ
some_file = 1 ∷ 2 ∷ 3 ∷ 4 ∷ 5 ∷ 6 ∷ 7 ∷ []

abbrev some_server : Network
some_server = record {
  Agent = Unit;
  call = λ first last agent. (response 206 (take (suc last - first) (drop first some_file)), agent);
}

abbrev body_of : Reply → List ℕ
body_of no_reply = []
body_of (response status body) = body

some_server-IsTruthful : IsTruthful some_server list_lru some_file 3
some_server-IsTruthful first last agent body h = (suc last - first, ap body_of (sym h))

some_server-IsServing : IsServing some_server list_lru some_file 3
some_server-IsServing first last agent h h' = refl

abbrev some_store : HttpRangeStore some_server list_lru
some_store = record {
  agent = tt;
  len = 7;
  pos = 2;
  block_bytes = 3;
  cache = new list_lru 100;
  bytes_fetched = 0;
  requests = 1;
}

some_store-IsView : IsView some_server list_lru some_file 3 2 some_store
some_store-IsView = record {
  len_is = refl;
  block_bytes_is = refl;
  pos_is = refl;
  cache_is = new-IsBlockCache (block_of some_file 3) list_lru 100 (omega arith);
}

abbrev some_buffer : List ℕ
some_buffer = 0 ∷ 0 ∷ 0 ∷ 0 ∷ []

read-IsRead_example :
    IsRead some_server list_lru some_file 3 2 some_buffer
      (read some_server list_lru some_buffer some_store)
read-IsRead_example =
    read-IsRead some_server list_lru some_file 3 some_server-IsTruthful (omega arith) (omega arith)
      2 some_buffer some_store some_store-IsView

read-Succeeds_example :
    Succeeds some_server list_lru some_file 3 (read some_server list_lru some_buffer some_store)
read-Succeeds_example =
    read-Succeeds some_server list_lru some_file 3 (omega arith) some_server-IsServing
      some_server-IsTruthful (omega arith) 2 some_buffer some_store some_store-IsView
