-- ===== src/Queries.antt =====
-- The cached queries and their invalidation: the names under which ui/src/lib/rpc/library.ts
-- registers its queries, and ui/src/lib/rpc/invalidate.ts. The cache of the router and its
-- `revalidate` are parameters.
pub mod Invalidation
mod Tests
use byom.Prelude.{Text, codes, List, [], ◌∷◌}
use byom.Pagination.{World, clear_list_cache}

-- The keys that `query` is given for the library's reads.
abbrev pub album_name : Text
album_name = codes "album"

abbrev pub artist_name : Text
artist_name = codes "artist"

abbrev pub versions_name : Text
versions_name = codes "albumVersions"

abbrev pub tracks_name : Text
tracks_name = codes "tracks"

-- `invalidateLibrary`, on the router's cache and the lists. `revalidate` of `@solidjs/router` is a
-- parameter, of which nothing is assumed.
unfoldable pub invalidate_library {ℓ κ} :
    {C : Type κ} {A : Type ℓ} → (List Text → C → C) → C × World A → C × World A
unfolding clear_list_cache
invalidate_library revalidate (c, w) =
    (revalidate (album_name ∷ artist_name ∷ tracks_name ∷ []) c, clear_list_cache w)
