-- ===== src/Manager/Threads/Moves.antt =====
-- Every move keeps the caches typed and the thread's variables fit.
use job_parser.Base.{ℕ, String, ◌≡◌, false, Option, none, some, [], ◌∷◌, All-append}
use job_parser.Base.Panic.{◌>>=◌}
use job_parser.Base.Error.{Error}
use job_parser.Cache.{InmemoryShardedCache, get_item, add_item_with_ttl}
use job_parser.Cache.Laws.{delete_item-IsValid}
use job_parser.Cache.Items.{Gives, delete-Holds, get_item-Gives}
use job_parser.Models.{SearchVacancyDetailesResult, Any}
use job_parser.Status.{Stats}
use job_parser.Manager.State.{Parser, ParsersManager}
use job_parser.Manager.Caching.{composite_id, cache_details_result}
use job_parser.Manager.Threads.{
  Thread, search, selecting, asking, storing, indexing, searched, details, fetching, keeping,
  detailed, brief, looking, forgetting, briefed, after_details, fetched, call_parser, after_index,
  after_search, index_entries, move,
}
use job_parser.Manager.Threads.Typed.{
  World, SearchItem, IndexItem, NoItem, IsTyped, IsOwn, IsFit, search_one-IsOwn,
}
use job_parser.Manager.Threads.Searches.{
  After, search-After, selected-IsFit, gathered-IsFit, or_nil-IsOwn,
}
use job_parser.Manager.Threads.Kept.{Kept, store-After, index-After, index_entries-Names, add-Kept}

module _ (w : World) where
  details-After :
      (id source : String) (pm : ParsersManager) (o : Option (Option Any))
      → IsTyped w pm
      → w.is_hash id ≡ false
      → Gives (NoItem w) id o
      → After w (o >>= λ cached. some (pm, after_details cached id source))
  unfolding after_details
  details-After id source pm none v b g = tt
  details-After id source pm (some none) v b g = (v, b)
  details-After id source pm (some (some a)) v b g = (v, tt)

  stored-After :
      (d : SearchVacancyDetailesResult) (pm : ParsersManager)
      (o : Option (InmemoryShardedCache Any))
      → IsTyped w pm
      → Kept w (SearchItem w) o
      → After w (
          (o >>= λ c. some (record pm { search_cache = c })) >>= λ pm'. some (pm', detailed d none))
  stored-After d pm none v k = tt
  stored-After d pm (some c) v k = store-After w pm (detailed d none) (some c) v k tt

  pub restats :
      {pm : ParsersManager} {stats : Stats}
      → IsTyped w pm
      → IsTyped w (record pm { parsers_status_manager = stats })
  restats v = record {
    same_parsers = v.same_parsers;
    search_valid = v.search_valid;
    index_valid = v.index_valid;
    details_valid = v.details_valid;
    search_items = v.search_items;
    index_items = v.index_items;
    details_items = v.details_items;
  }

  fetched-IsFit :
      (id : String) (d : SearchVacancyDetailesResult × Option Error)
      → w.is_hash id ≡ false
      → IsFit w (fetched id d)
  unfolding fetched
  fetched-IsFit id (d, some e) b = tt
  fetched-IsFit id (d, none) b = b

  call-After :
      (p : Option Parser) (id : String) (pm : ParsersManager)
      → IsTyped w pm
      → w.is_hash id ≡ false
      → After w (call_parser p id pm)
  unfolding call_parser
  call-After none id pm v b = tt
  call-After (some p) id pm v b = (v, fetched-IsFit id (p.search_vacancies_detailes id) b)

  keep-After :
      (id : String) (d : SearchVacancyDetailesResult) (now : ℕ) (pm : ParsersManager)
      → IsTyped w pm
      → w.is_hash id ≡ false
      → After w (cache_details_result id d now pm >>= λ pm'. some (pm', detailed d none))
  unfolding cache_details_result
  keep-After id d now pm v b =
      stored-After d pm
        (add_item_with_ttl id (Any.details d) pm.vacancy_cache_ttl now pm.search_cache) v
        (add-Kept w (SearchItem w) pm.search_cache id (Any.details d) pm.vacancy_cache_ttl now
          v.search_valid v.search_items b)

  brief-After :
      (source id : String) (pm : ParsersManager) (o : Option (Option Any))
      → IsTyped w pm
      → Gives (IndexItem w) (composite_id source id) o
      → After w (o >>= λ item. some (pm, after_index item source id))
  unfolding after_index
  brief-After source id pm none v g = tt
  brief-After source id pm (some none) v g = (v, tt)
  brief-After source id pm (some (some (Any.results rs))) v g = (v, tt)
  brief-After source id pm (some (some (Any.details d))) v g = (v, tt)
  brief-After source id pm (some (some (Any.index i))) v g = (v, g)

  look-After :
      (source id : String) (pm : ParsersManager) (o : Option (Option Any))
      → IsTyped w pm
      → After w (o >>= λ item. some (pm, after_search item source id))
  unfolding after_search
  look-After source id pm none v = tt
  look-After source id pm (some none) v = (v, tt)
  look-After source id pm (some (some (Any.results rs))) v = (v, tt)
  look-After source id pm (some (some (Any.details d))) v = (v, tt)
  look-After source id pm (some (some (Any.index i))) v = (v, tt)

  -- Every move keeps the caches typed and its thread's variables fit.
  pub move-After :
      (now : ℕ) (t : Thread) (pm : ParsersManager)
      → IsTyped w pm
      → IsFit w t
      → After w (move now t pm)
  unfolding move
  move-After now (search env params) pm v f = search-After w now env params pm v f
  move-After now (selecting env params) pm v f =
      (v, selected-IsFit w env params _ pm v.same_parsers f)
  move-After now (asking params hash [] rs) pm v (b, g, s, h) = (v, gathered-IsFit w hash rs b h)
  move-After now (asking params hash (a ∷ todo) rs) pm v (b, g, (s, ss), h) = (
    restats v,
    (
      b,
      g,
      ss,
      All-append (IsOwn w hash) rs _ h
          (search_one-IsOwn w params hash now a pm.parsers_status_manager g s, tt),
    ),
  )
  move-After now (storing hash good rs) pm v (b, g, h) =
      store-After w pm (indexing hash (index_entries hash good) rs)
        (add_item_with_ttl hash (Any.results (some good)) pm.search_cache_ttl now pm.search_cache) v
        (add-Kept w (SearchItem w) pm.search_cache hash (Any.results (some good))
          pm.search_cache_ttl now v.search_valid v.search_items (b, g))
        (index_entries-Names w hash good b, h)
  move-After now (indexing hash [] rs) pm v (n, h) = (v, or_nil-IsOwn w hash rs h)
  move-After now (indexing hash ((key, i) ∷ es) rs) pm v ((n, ns), h) =
      index-After w pm (indexing hash es rs)
        (add_item_with_ttl key (Any.index i) pm.vacancy_cache_ttl now pm.vacancy_index) v
        (add-Kept w (IndexItem w) pm.vacancy_index key (Any.index i) pm.vacancy_cache_ttl now
          v.index_valid v.index_items n)
        (ns, h)
  move-After now (searched hash rs err) pm v f = (v, f)
  move-After now (details id source) pm v b =
      details-After id source pm (get_item id now pm.vacancy_details) v b
        (get_item-Gives (NoItem w) pm.vacancy_details id now v.details_valid v.details_items)
  move-After now (fetching id source) pm v b = call-After _ id pm v b
  move-After now (keeping id d) pm v b = keep-After id d now pm v b
  move-After now (detailed d err) pm v f = (v, tt)
  move-After now (brief source id) pm v f =
      brief-After source id pm (get_item (composite_id source id) now pm.vacancy_index) v (
        get_item-Gives (IndexItem w) pm.vacancy_index (composite_id source id) now v.index_valid
          v.index_items)
  move-After now (looking i source id) pm v f =
      look-After source id pm (get_item i.search_hash now pm.search_cache) v
  move-After now (forgetting source id) pm v f = (
    record {
      same_parsers = v.same_parsers;
      search_valid = v.search_valid;
      index_valid = delete_item-IsValid (composite_id source id) pm.vacancy_index v.index_valid;
      details_valid = v.details_valid;
      search_items = v.search_items;
      index_items =
          delete-Holds (IndexItem w) (composite_id source id) pm.vacancy_index v.index_items;
      details_items = v.details_items;
    },
    tt,
  )
  move-After now (briefed b) pm v f = (v, tt)
