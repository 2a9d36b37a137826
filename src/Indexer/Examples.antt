-- ===== src/Indexer/Examples.antt =====
-- The theorem on the indexer, at a store of one photo.
use photo_swipe.Prelude.{◌≡◌, String, refl, some, none, [], ◌∷◌, arith}
use photo_swipe.Prelude.Map.{lookup}
use photo_swipe.Store.Photos.{hash_progress, needs_hash}
use photo_swipe.Store.Photos.Hashing.{waiting}
use photo_swipe.Store.Examples.{env_at}
use photo_swipe.Store.Steps.Examples.{small, one_photo-IsKeyed}
use photo_swipe.Indexer.{Tools, index_rounds}
use photo_swipe.Indexer.Fates.{Fate}
use photo_swipe.Indexer.Rounds.{hash_progress-index_rounds}

abbrev tools : Tools
tools = record {
  env = env_at 5;
  path_of = λ path. path;
  content = λ _. none;
  parse_time = λ _. none;
  decode = λ _. some (record { width = 9; height = 9; at = λ x y. x });
  rgba = λ c. c;
  draw = λ im. im.at;
}

hash_progress-index_rounds_example :
    ((hash_progress (index_rounds (tools ∷ []) small)).0
      ≡ (hash_progress (index_rounds (tools ∷ []) small)).1)
    × ((id : String)
        → Fate
            (tools ∷ [])
            (lookup id small.state.photos)
            (lookup id (index_rounds (tools ∷ []) small).state.photos))
unfolding waiting needs_hash
hash_progress-index_rounds_example =
    hash_progress-index_rounds (tools ∷ []) small one_photo-IsKeyed (refl, tt) (omega arith)
