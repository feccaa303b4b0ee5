-- ===== src/Cache/ListLru.antt =====
-- A list of entries as the `lru` crate: what cache.rs asks of it can be had.
use rustfits.Prelude.{ℕ, ◌≡◌, refl, ap, ◌∙◌, Option, none, some, List, [], ◌∷◌, ◌++◌}
use native.Mathlib.Decide.{ℕ_discrete}
use rustfits.Cache.Lru.{Bytes, LruCrate, find, erase, touch}

abbrev pub Entries : Type 0
Entries = List (ℕ × Bytes)

-- An entry in front of a list whose last entry is taken out.
abbrev pub behind : ℕ × Bytes → Option (ℕ × Bytes) × Entries → Option (ℕ × Bytes) × Entries
behind e (none, es) = (some e, [])
behind e (some last, es) = (some last, e ∷ es)

abbrev pub pop_last : Entries → Option (ℕ × Bytes) × Entries
pop_last [] = (none, [])
pop_last (e ∷ es) = behind e (pop_last es)

pub pop_last-append : (es : Entries) (e : ℕ × Bytes) → pop_last (es ++ e ∷ []) ≡ (some e, es)
pop_last-append [] e = refl
pop_last-append (d ∷ es) e = ap (behind d) (pop_last-append es e)

abbrev pub list_lru : LruCrate ℕ_discrete
list_lru = record {
  LruCache = Entries;
  entries = λ es. es;
  unbounded = [];
  get = λ k es. (find ℕ_discrete k es, touch ℕ_discrete k es);
  pop = λ k es. (find ℕ_discrete k es, erase ℕ_discrete k es);
  pop_lru = pop_last;
  put = λ k bytes es. (k, bytes) ∷ erase ℕ_discrete k es;
  clear = λ es. [];
  entries-unbounded = refl;
  found-get = λ k es. refl;
  entries-get = λ k es. refl;
  found-pop = λ k es. refl;
  entries-pop = λ k es. refl;
  found-pop_lru_nil = λ es nil. rw nil refl;
  entries-pop_lru_nil = λ es nil. rw nil refl;
  found-pop_lru = λ c es e snoc.
      ap (λ (l : Entries). (pop_last l).0) snoc ∙ ap (λ r. r.0) (pop_last-append es e);
  entries-pop_lru = λ c es e snoc.
      ap (λ (l : Entries). (pop_last l).1) snoc ∙ ap (λ r. r.1) (pop_last-append es e);
  entries-put = λ k bytes es. refl;
  entries-clear = λ es. refl;
}
