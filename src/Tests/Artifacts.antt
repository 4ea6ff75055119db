-- ===== src/Tests/Artifacts.antt =====
-- The properties of the artifacts at a concrete input.
use gh_pool.Base.{
  ℕ, List, ◌≡◌, false, true, none, some, [], ◌∷◌, length, ◌⊎◌, ok, err, ◌==◌, flatten,
}
use gh_pool.Base.Dict.{lookup}
use gh_pool.Base.Members.{member}
use gh_pool.Pool.State.{Blob, boot}
use gh_pool.Pool.Queue.{http}
use gh_pool.Pool.Store.{save_blobs, blob_rows}
use gh_pool.Pool.Artifacts.{Store, put_artifact, get_artifact, del_artifact}
use gh_pool.Pool.Artifacts.Round.{KeyedBlobs, put_artifact-kept}

abbrev empty_store : Store
empty_store = record { pool = boot 0 []; blob_files = [] }

no_rows : KeyedBlobs empty_store.pool.blobs
unfolding lookup boot
no_rows k b e = cc

abbrev two_chunks : List (List ℕ)
two_chunks = (1 ∷ 2 ∷ []) ∷ (4 ∷ []) ∷ []

-- The chunks put under the key 3.
abbrev stored : Store
stored = (put_artifact (length {A = ℕ}) 3 none 9 (some two_chunks) empty_store).0

put_artifact-kept_example :
    (get_artifact 3 stored ≡ ok (flatten two_chunks))
    × ((b : Blob) × (b.size ≡ length (flatten two_chunks))
        × (b.sha256 ≡ length (flatten two_chunks))
        × (lookup 3 (save_blobs (blob_rows stored.pool.dirty_blobs stored.pool.blobs) []) ≡ some b))
    × (get_artifact 3 (del_artifact 3 true stored).1 ≡ err (http 404))
    × (lookup 3 (del_artifact 3 true stored).1.pool.blobs ≡ none)
    × (member 3 (del_artifact 3 true stored).1.pool.dirty_blobs ≡ false)
    × (((3 == 5) ≡ true)
        ⊎ (get_artifact 5 (del_artifact 3 true stored).1 ≡ get_artifact 5 empty_store))
put_artifact-kept_example =
    put_artifact-kept (length {A = ℕ}) 3 none 9 two_chunks empty_store true [] 5 no_rows
