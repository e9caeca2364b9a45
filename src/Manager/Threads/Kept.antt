-- ===== src/Manager/Threads/Kept.antt =====
-- What is written into the caches keeps them typed.
use mathlib.Core.Path.{subst}
use job_parser.Base.{
  ℕ, suc, String, ◌≡◌, sym, true, Option, none, some, List, [], ◌∷◌, All, All-append,
}
use job_parser.Base.Panic.{◌>>=◌}
use job_parser.Cache.{InmemoryShardedCache, add_item_with_ttl}
use job_parser.Cache.Laws.{IsValid, add-IsValid}
use job_parser.Cache.Items.{Holds, add-Holds}
use job_parser.Models.{Vacancy, SearchVacanciesResult, Any}
use job_parser.Manager.State.{ParsersManager}
use job_parser.Manager.Threads.{Thread, vacancy_entries, index_entries}
use job_parser.Manager.Threads.Typed.{World, SearchItem, IndexItem, IsTyped, Names, IsFit}
use job_parser.Manager.Threads.Searches.{After}

module _ (w : World) where
  -- A cache after AddItemWithTTL, if that does not panic.
  abbrev pub Kept : (String → Any → Type 0) → Option (InmemoryShardedCache Any) → Type 0
  Kept P none = Unit
  Kept P (some c) = IsValid c × Holds P c.shards

  module _ (P : String → Any → Type 0) where
    Kept-some :
        (o : Option (InmemoryShardedCache Any)) (c : InmemoryShardedCache Any)
        → o ≡ some c
        → IsValid c
        → Holds P c.shards
        → Kept P o
    Kept-some none c e v h = tt
    Kept-some (some d) c e v h = subst (λ o. Kept P o) (sym e) (v, h)

    pub add-Kept :
        (c : InmemoryShardedCache Any) (key : String) (a : Any) (ttl now : ℕ)
        → IsValid c
        → Holds P c.shards
        → P key a
        → Kept P (add_item_with_ttl key a ttl now c)
    add-Kept c key a ttl now v h p =
        let (d, e, w') = add-IsValid c key a ttl now v in
        Kept-some _ d e w' (add-Holds P c d key a ttl now v e p h)

  pub store-After :
      (pm : ParsersManager) (t : Thread) (o : Option (InmemoryShardedCache Any))
      → IsTyped w pm
      → Kept (SearchItem w) o
      → IsFit w t
      → After w (o >>= λ c. some (record pm { search_cache = c }, t))
  store-After pm t none v k f = tt
  store-After pm t (some c) v (w', h) f = (
    record {
      same_parsers = v.same_parsers;
      search_valid = w';
      index_valid = v.index_valid;
      details_valid = v.details_valid;
      search_items = h;
      index_items = v.index_items;
      details_items = v.details_items;
    },
    f,
  )

  pub index-After :
      (pm : ParsersManager) (t : Thread) (o : Option (InmemoryShardedCache Any))
      → IsTyped w pm
      → Kept (IndexItem w) o
      → IsFit w t
      → After w (o >>= λ c. some (record pm { vacancy_index = c }, t))
  index-After pm t none v k f = tt
  index-After pm t (some c) v (w', h) f = (
    record {
      same_parsers = v.same_parsers;
      search_valid = v.search_valid;
      index_valid = w';
      details_valid = v.details_valid;
      search_items = v.search_items;
      index_items = h;
      details_items = v.details_items;
    },
    f,
  )

  vacancy_entries-Names :
      (hash parser : String) (i : ℕ) (vs : List Vacancy)
      → w.is_hash hash ≡ true
      → All (Names w) (vacancy_entries hash parser i vs)
  unfolding vacancy_entries
  vacancy_entries-Names hash parser i [] b = tt
  vacancy_entries-Names hash parser i (v ∷ vs) b =
      (b, vacancy_entries-Names hash parser (suc i) vs b)

  pub index_entries-Names :
      (hash : String) (rs : List SearchVacanciesResult)
      → w.is_hash hash ≡ true
      → All (Names w) (index_entries hash rs)
  unfolding index_entries
  index_entries-Names hash [] b = tt
  index_entries-Names hash (r ∷ rs) b =
      All-append (Names w) (vacancy_entries hash r.parser_name 0 r.vacancies)
        (index_entries hash rs) (vacancy_entries-Names hash r.parser_name 0 r.vacancies b)
        (index_entries-Names hash rs b)
