-- ===== src/Cache/Tests.antt =====
-- cache.rs: a list as the `lru` crate, runs of the cache on it, and the theorems there.
use rustfits.Prelude.{◌≡◌, ◌≤◌, ◌<◌, refl, false, some, List, [], ◌∷◌, arith}
use native.Mathlib.Decide.{ℕ_discrete}
use rustfits.Cache.{
  BytesBoundLruCache, new, put, get, set_capacity, capacity, used_bytes, insert, shrink, locked,
  is_refused, pop_key, pop_over, pop_while,
}
use rustfits.Cache.Lru.{Bytes}
use rustfits.Cache.Put.{IsAccounted, IsInserted, IsShrunk}
use rustfits.Cache.Sequence.{
  IsValid, Call, call_put, call_get, apply_all, apply_all-IsValid, get-put, put-IsInserted,
  set_capacity-IsShrunk, apply,
}
use rustfits.Cache.Race.{
  System, Reach, start, later, setting, begin_put, end_put, begin_set_capacity, Reach-bounded,
}
use rustfits.Cache.Over.{used_bytes-over}
use rustfits.Cache.ListLru.{list_lru}

abbrev four : Bytes
four = 1 ∷ 2 ∷ 3 ∷ 4 ∷ []

abbrev six : Bytes
six = 1 ∷ 2 ∷ 3 ∷ 4 ∷ 5 ∷ 6 ∷ []

-- The third entry does not fit with the others: the one that was used last stays.
abbrev calls : List (Call list_lru)
calls = call_put 7 four ∷ call_put 8 four ∷ call_get 7 ∷ call_put 9 six ∷ []

abbrev ten : BytesBoundLruCache list_lru
ten = apply_all list_lru calls (new list_lru 10)

evicted : ten.inner.cache ≡ (9, six) ∷ (7, four) ∷ []
unfolding apply_all apply new put get is_refused locked insert pop_key pop_over pop_while capacity
    ℕ_discrete
evicted = refl

refused : (put list_lru 7 six (new list_lru 5)).inner.cache ≡ []
unfolding put new is_refused capacity
refused = refl

shrunk_to_nothing : used_bytes list_lru (set_capacity list_lru 0 ten) ≡ 0
unfolding apply_all apply new put get is_refused locked insert pop_key pop_over pop_while capacity
    used_bytes set_capacity shrink ℕ_discrete
shrunk_to_nothing = refl

ten-IsValid : IsValid list_lru ten
ten-IsValid = (apply_all-IsValid list_lru 10 calls (omega arith) (tt, (tt, (tt, (tt, tt))))).0

four_accepted : is_refused list_lru (capacity list_lru ten) four ≡ false
unfolding apply_all apply new put get is_refused locked insert pop_key pop_over pop_while capacity
four_accepted = refl

apply_all-IsValid_example : IsValid list_lru ten × (used_bytes list_lru ten ≤ capacity list_lru ten)
apply_all-IsValid_example =
    apply_all-IsValid list_lru 10 calls (omega arith) (tt, (tt, (tt, (tt, tt))))

get-put_example : (get list_lru 3 (put list_lru 3 four ten)).0 ≡ some four
get-put_example = get-put list_lru 3 four ten ten-IsValid four_accepted

put-IsInserted_example :
    IsInserted list_lru (capacity list_lru ten) 3 four ten.inner (put list_lru 3 four ten).inner
put-IsInserted_example = put-IsInserted list_lru 3 four ten ten-IsValid four_accepted

set_capacity-IsShrunk_example : IsShrunk list_lru 6 ten.inner (set_capacity list_lru 6 ten).inner
set_capacity-IsShrunk_example = set_capacity-IsShrunk list_lru 6 ten ten-IsValid

-- One `put` that ends, and a `set_capacity` that has yet to take the lock.
abbrev ended : BytesBoundLruCache list_lru
ended = locked list_lru (insert list_lru 10 3 four) (new list_lru 10)

four_accepted_new : is_refused list_lru (capacity list_lru (new list_lru 10)) four ≡ false
unfolding new is_refused capacity
four_accepted_new = refl

reached :
    Reach list_lru 20 10
      (record { cache = record ended { max_bytes = 5 }; pending = setting 5 ∷ [] })
unfolding capacity new
reached =
    later
      (later
        (later start
          (begin_put (record { cache = new list_lru 10; pending = [] }) 3 four four_accepted_new))
        (end_put (new list_lru 10) [] [] 10 3 four))
      (begin_set_capacity (record { cache = ended; pending = [] }) 5 (omega arith))

Reach-bounded_example :
    IsAccounted list_lru ended.inner × (used_bytes list_lru (record ended { max_bytes = 5 }) ≤ 20)
Reach-bounded_example = Reach-bounded list_lru 20 (omega arith) 10 _ (omega arith) reached

used_bytes-over_example :
    (s : System list_lru) × Reach list_lru 10 10 s
    × (s.pending ≡ [])
    × (used_bytes list_lru s.cache ≡ 6)
    × (capacity list_lru s.cache < used_bytes list_lru s.cache)
used_bytes-over_example =
    used_bytes-over list_lru 10 5 3 six (omega arith) (omega arith) (omega arith)
