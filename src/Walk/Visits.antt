-- ===== src/Walk/Visits.antt =====
-- The order of the walk of scan/walk.go: the list of what it meets, and the walk as a run over it.
use byom.Prelude.{
  Text, ◌≡◌, refl, List, [], ◌∷◌, ◌++◌, Result, ok, err, ◌>>=◌, Bool-cases, Result-cases, inl, inr,
  if◌then◌else◌,
}
use byom.Storage.{RelPath}
use byom.Sync.{WalkResult}
use byom.Walk.{
  Folder, Entries, unreadable, listing, done, regular, folder, special, is_hidden, WalkError,
  not_read, result_of, walk_post_order, walk_folders,
}

-- A directory is met after what is in it, and one that cannot be read is met as such.
pub data Visit : Type 0 where
  found : WalkResult → Visit
  failed : RelPath → Visit

module _ (to_lower : Text → Text) where
  unfoldable mutual
    pub visits : RelPath → Folder → List Visit
    visits dir unreadable = failed dir ∷ []
    visits dir (listing es) = visits_in dir es ++ found (result_of to_lower dir es) ∷ []

    pub visits_in : RelPath → Entries → List Visit
    visits_in dir done = []
    visits_in dir (regular name info es) = visits_in dir es
    visits_in dir (special name es) = visits_in dir es
    visits_in dir (folder name sub es) =
        if is_hidden name then visits_in dir es else visits (name ∷ dir) sub ++ visits_in dir es

module _ {S : Type 0} (process : WalkResult → S → Result WalkError S) where
  -- The first failure ends the run.
  unfoldable pub visit : Visit → S → Result WalkError S
  visit (found res) s = process res s
  visit (failed dir) s = err (not_read dir)

  unfoldable pub run : List Visit → S → Result WalkError S
  run [] s = ok s
  run (v ∷ vs) s = visit v s >>= run vs

  pub run-append : (us vs : List Visit) (s : S) → run (us ++ vs) s ≡ (run us s >>= run vs)
  unfolding run
  run-append [] vs s = refl
  run-append (u ∷ us) vs s = elim (Result-cases (visit u s)) [
    | inl (e, fails) ↦ rw fails refl
    | inr (s', passes) ↦ rw passes (run-append us vs s')
  ]

  run_none : (s : S) → run [] s ≡ ok s
  unfolding run
  run_none s = refl

  run_one : (v : Visit) (s : S) → run (v ∷ []) s ≡ visit v s
  unfolding run
  run_one v s = elim (Result-cases (visit v s)) [
    | inl (e, fails) ↦ rw fails refl
    | inr (s', passes) ↦ rw passes refl
  ]

  module _ (to_lower : Text → Text) where
    mutual
      unfolding walk_post_order visits visit

      walk_post_order-lem :
          (dir : RelPath) (f : Folder) (s : S)
          → walk_post_order to_lower process dir f s ≡ run (visits to_lower dir f) s
      walk_post_order-lem dir unreadable s = rw (run_one (failed dir) s) refl
      walk_post_order-lem dir (listing es) s =
          rw
            (
              run-append (visits_in to_lower dir es) (found (result_of to_lower dir es) ∷ []) s,
              walk_folders-lem dir es s,
            )
            (elim (Result-cases (run (visits_in to_lower dir es) s)) [
              | inl (e, fails) ↦ rw fails refl
              | inr (s', passes) ↦ rw (passes, run_one (found (result_of to_lower dir es)) s') refl
            ])

      walk_folders-lem :
          (dir : RelPath) (es : Entries) (s : S)
          → walk_folders to_lower process dir es s ≡ run (visits_in to_lower dir es) s
      walk_folders-lem dir done s = rw (run_none s) refl
      walk_folders-lem dir (regular name info es) s = walk_folders-lem dir es s
      walk_folders-lem dir (special name es) s = walk_folders-lem dir es s
      walk_folders-lem dir (folder name sub es) s = elim (Bool-cases (is_hidden name)) [
        | inl hidden ↦ rw hidden (walk_folders-lem dir es s)
        | inr shown ↦
            rw
              (
                shown,
                run-append (visits to_lower (name ∷ dir) sub) (visits_in to_lower dir es) s,
                walk_post_order-lem (name ∷ dir) sub s,
              )
              (elim (Result-cases (run (visits to_lower (name ∷ dir) sub) s)) [
                | inl (e, fails) ↦ rw fails refl
                | inr (s', passes) ↦ rw passes (walk_folders-lem dir es s')
              ])
      ]

    -- The walk is the run over what it meets, whatever takes its results, and ends at the first failure.
    pub walk_post_order-run :
        (dir : RelPath) (f : Folder) (s : S)
        → walk_post_order to_lower process dir f s ≡ run (visits to_lower dir f) s
    walk_post_order-run dir f s = walk_post_order-lem dir f s
