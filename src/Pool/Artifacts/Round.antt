-- ===== src/Pool/Artifacts/Round.antt =====
-- An artifact that is put is there until it is deleted.
use gh_pool.Base.{
  ℕ, ◌≡◌, refl, Bool, true, false, Option, none, some, List, [], ◌∷◌, arith, ◌==◌, length, flatten,
  Result, ok, err, Bool-cases, Option-cases, inl, inr, ◌⊎◌, ◌∙◌, ap, subst,
}
use gh_pool.Base.Dict.{Dict, lookup, put, remove, lookup-put, lookup-put_self, lookup-remove}
use gh_pool.Base.Members.{member, add, discard, member-add, member-discard}
use gh_pool.Pool.State.{Blob}
use gh_pool.Pool.Queue.{HttpError, http}
use gh_pool.Pool.Store.{save_blobs, blob_rows}
use gh_pool.Pool.Artifacts.{Store, put_artifact, get_artifact, del_artifact}

-- Each row stands under its key.
abbrev pub KeyedBlobs : Dict Blob → Type 0
KeyedBlobs blobs = (k : ℕ) (b : Blob) → lookup k blobs ≡ some b → b.key ≡ k

-- The row that a save leaves under a key: the row in memory, where the key is among those taken.
lookup-save_blobs :
    (key : ℕ) (keys : List ℕ) (blobs saved : Dict Blob)
    → KeyedBlobs blobs
    → (b : Blob) → lookup key blobs ≡ some b
    → (member key keys ≡ true) ⊎ (lookup key saved ≡ some b)
    → lookup key (save_blobs (blob_rows keys blobs) saved) ≡ some b
unfolding save_blobs blob_rows member
lookup-save_blobs key [] blobs saved k b e (inl m) = absurd (ground arith)
lookup-save_blobs key [] blobs saved k b e (inr s) = s
lookup-save_blobs key (i ∷ keys) blobs saved k b e h = elim (Bool-cases (i == key)) [
  | inl a ↦
      let same : key ≡ i = ground arith in
      let here : lookup i blobs ≡ some b = subst (λ j. lookup j blobs ≡ some b) same e in
      let own : b.key ≡ key = k key b e in
      let saved_now = ap (λ j. lookup key (put j b saved)) own ∙ lookup-put_self key b saved in
      rw (here, blob_rows)
        (lookup-save_blobs key keys blobs (put b.key b saved) k b e (inr saved_now))
  | inr a ↦ elim (Option-cases (lookup i blobs)) [
    | inl n ↦
        let still : (member key keys ≡ true) ⊎ (lookup key saved ≡ some b) = elim h [
          | inl m ↦ inl (ground arith)
          | inr s ↦ inr s
        ] in
        rw (n, blob_rows) (lookup-save_blobs key keys blobs saved k b e still)
    | inr (b', n) ↦
        let own : b'.key ≡ i = k i b' n in
        let still : (member key keys ≡ true) ⊎ (lookup key (put b'.key b' saved) ≡ some b) =
          elim h [
            | inl m ↦ inl (ground arith)
            | inr s ↦ inr (ground (arith, lookup-put b'.key key b' saved))
          ] in
        rw (n, blob_rows) (lookup-save_blobs key keys blobs (put b'.key b' saved) k b e still)
  ]
]

put-KeyedBlobs :
    (key : ℕ) (b : Blob) (blobs : Dict Blob)
    → b.key ≡ key
    → KeyedBlobs blobs
    → KeyedBlobs (put key b blobs)
put-KeyedBlobs key b blobs e k j x h = ground (arith, lookup-put key j b blobs, k j x, e)

blobs-del_artifact :
    (key : ℕ) (answers : Bool) (w : Store)
    → (del_artifact key answers w).1.pool.blobs ≡ remove key w.pool.blobs
unfolding del_artifact
blobs-del_artifact key true w = refl
blobs-del_artifact key false w = refl

dirty-del_artifact :
    (key : ℕ) (answers : Bool) (w : Store)
    → (del_artifact key answers w).1.pool.dirty_blobs ≡ discard key w.pool.dirty_blobs
unfolding del_artifact
dirty-del_artifact key true w = refl
dirty-del_artifact key false w = refl

abbrev file_or_404 : Option (List ℕ) → Result HttpError (List ℕ)
file_or_404 o = elim o [ none ↦ err (http 404) | some bytes ↦ ok bytes ]

-- Where the rows in memory stand under their keys: an artifact that was put can be got, byte for byte;
-- whatever else a flush takes, it saves a row with the size and the digest of these bytes under its
-- key; and once it is deleted, a get answers 404, no row is left in memory and no flush takes one, while
-- any other artifact can be got as before both.
pub put_artifact-kept :
    (sha256 : List ℕ → ℕ) (key : ℕ) (task_id : Option ℕ) (now : ℕ) (chunks : List (List ℕ))
    (w : Store) (answers : Bool) (artifacts : Dict Blob) (other : ℕ)
    → KeyedBlobs w.pool.blobs
    → (let w' = (put_artifact sha256 key task_id now (some chunks) w).0 in
        let w'' = (del_artifact key answers w').1 in
        (get_artifact key w' ≡ ok (flatten chunks))
        × ((b : Blob) × (b.size ≡ length (flatten chunks))
            × (b.sha256 ≡ sha256 (flatten chunks))
            × (lookup key (save_blobs (blob_rows w'.pool.dirty_blobs w'.pool.blobs) artifacts)
                ≡ some b))
        × (get_artifact key w'' ≡ err (http 404))
        × (lookup key w''.pool.blobs ≡ none)
        × (member key w''.pool.dirty_blobs ≡ false)
        × (((key == other) ≡ true) ⊎ (get_artifact other w'' ≡ get_artifact other w)))
unfolding put_artifact del_artifact get_artifact
put_artifact-kept sha256 key task_id now chunks w answers artifacts other k =
    let bytes = flatten chunks in
    let row : Blob = record {
      key = key;
      size = length bytes;
      sha256 = sha256 bytes;
      task_id = task_id;
      created_at = now;
    } in
    let file = lookup-put_self key bytes w.blob_files in
    let blobs = put key row w.pool.blobs in
    let dirty = add key w.pool.dirty_blobs in
    let taken : member key dirty ≡ true = ground (arith, member-add key key w.pool.dirty_blobs) in
    let saved =
      lookup-save_blobs key dirty blobs artifacts (put-KeyedBlobs key row w.pool.blobs refl k) row
        (lookup-put_self key row w.pool.blobs) (inl taken) in
    let no_file : lookup key (remove key (put key bytes w.blob_files)) ≡ none =
      ground (arith, lookup-remove key key (put key bytes w.blob_files)) in
    let no_row : lookup key (remove key blobs) ≡ none =
      ground (arith, lookup-remove key key blobs) in
    let not_taken : member key (discard key dirty) ≡ false =
      ground (arith, member-discard key key dirty) in
    let others : ((key == other) ≡ true)
        ⊎ (lookup other (remove key (put key bytes w.blob_files)) ≡ lookup other w.blob_files) =
      ground (
        arith,
        lookup-remove key other (put key bytes w.blob_files),
        lookup-put key other bytes w.blob_files,
      ) in
    let w' = (put_artifact sha256 key task_id now (some chunks) w).0 in
    (
      rw (file, get_artifact) refl,
      (row, refl, refl, saved),
      rw (no_file, get_artifact) refl,
      ap (lookup key) (blobs-del_artifact key answers w') ∙ no_row,
      ap (member key) (dirty-del_artifact key answers w') ∙ not_taken,
      elim others [ inl e ↦ inl e | inr e ↦ inr (ap file_or_404 e) ],
    )
