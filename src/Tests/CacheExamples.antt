-- ===== src/Tests/CacheExamples.antt =====
-- A cache with one value.
use fake_ui.Prelude.{ℕ, List, [], ◌≡◌, refl, arith}
use fake_ui.Cache.{Item, get}
use fake_ui.Cache.Fresh.{get-get}

abbrev empty_cache : List (Item ℕ)
empty_cache = []

get-get_example :
    let items' = (get "nodes" "all" 30 100 7 empty_cache).1 in
    get "nodes" "all" 60 129 8 items' ≡ (7, items')
unfolding get
get-get_example = get-get "nodes" "all" 30 60 100 129 7 8 empty_cache refl (omega arith)
