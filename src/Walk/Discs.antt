-- ===== src/Walk/Discs.antt =====
-- What the merger of scan/walk.go emits over a whole walk: each directory that is no disc once, with the
-- files of its discs.
use byom.Prelude.{◌&&◌, ◌≡◌, Text, text_eq, Bool, true, false, List, [], ◌∷◌, ◌++◌, if◌then◌else◌}
use byom.Storage.{RelPath}
use byom.Sync.{WalkResult}
use byom.Walk.{
  Folder, Entries, unreadable, listing, done, regular, folder, special, is_hidden, result_of,
  is_disc, disc_files,
}

-- Every directory that the walk enters can be read, those in one directory have names of their own,
-- and no disc folder stands right in another.
abbrev pub HasNo : Text → Entries → Type 0
HasNo name done = Unit
HasNo name (regular n info es) = HasNo name es
HasNo name (special n es) = HasNo name es
HasNo name (folder n sub es) = (text_eq n name ≡ false) × HasNo name es

abbrev pub Unless : Bool → Type 0 → Type 0
Unless true P = Unit
Unless false P = P

unfoldable mutual
  pub IsMergeable : RelPath → Folder → Type 0
  IsMergeable dir unreadable = ⊥
  IsMergeable dir (listing es) = AreMergeable dir es

  pub AreMergeable : RelPath → Entries → Type 0
  AreMergeable dir done = Unit
  AreMergeable dir (regular name info es) = AreMergeable dir es
  AreMergeable dir (special name es) = AreMergeable dir es
  AreMergeable dir (folder name sub es) =
      Unless (is_hidden name)
        (IsMergeable (name ∷ dir) sub × ((is_disc dir && is_disc (name ∷ dir)) ≡ false))
      × HasNo name es
      × AreMergeable dir es

module _ (to_lower : Text → Text) where
  -- The results of the disc folders right in a directory.
  unfoldable pub disc_results : RelPath → Folder → List WalkResult
  disc_results dir unreadable = []
  disc_results dir (listing es) = if is_disc dir then result_of to_lower dir es ∷ [] else []

  unfoldable pub discs_in : RelPath → Entries → List WalkResult
  unfolding disc_results
  discs_in dir done = []
  discs_in dir (regular name info es) = discs_in dir es
  discs_in dir (special name es) = discs_in dir es
  discs_in dir (folder name sub es) =
      let rest = discs_in dir es in
      if is_hidden name then rest else disc_results (name ∷ dir) sub ++ rest

  unfoldable pub with_discs : RelPath → Entries → WalkResult
  unfolding discs_in
  with_discs dir es = record (result_of to_lower dir es) {
    files = (result_of to_lower dir es).files ++ disc_files (discs_in dir es);
  }

  -- The directories that are to be synced.
  unfoldable mutual
    pub albums : RelPath → Folder → List WalkResult
    albums dir unreadable = []
    albums dir (listing es) =
        albums_in dir es ++ (if is_disc dir then [] else with_discs dir es ∷ [])

    pub albums_in : RelPath → Entries → List WalkResult
    albums_in dir done = []
    albums_in dir (regular name info es) = albums_in dir es
    albums_in dir (special name es) = albums_in dir es
    albums_in dir (folder name sub es) =
        let rest = albums_in dir es in
        if is_hidden name then rest else albums (name ∷ dir) sub ++ rest
