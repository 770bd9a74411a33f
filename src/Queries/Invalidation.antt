-- ===== src/Queries/Invalidation.antt =====
-- What ui/src/lib/rpc/invalidate.ts does for the lists: none that is mounted later shows what the
-- server had before.
use byom.Prelude.{◌+◌, ◌≡◌, refl, Text, false, List, All, length, arith}
use byom.Pagination.{Page, World, mount, clear_list_cache, show_entry}
use byom.Pagination.Late.{Ending, end_calls, IsLate}
use byom.Pagination.Late.Rounds.{
  IsBelow, late_round, late_rounds, late_round-IsAt, late_rounds-IsAt,
}
use byom.Pagination.Mounting.{opened, opened-IsAt, mount_new, unused_calls}
use byom.Pagination.Progress.{answer}
use byom.Pagination.Steps.{Reach, Reach-IsValid}
use byom.Pagination.Walk.{walk, walk-suc}
use byom.Queries.{invalidate_library}

module _ {ℓ} {A : Type ℓ} (before : Text → Text → Page A) {w : World A}
    (reach : Reach before w) where
  -- The calls of a world are for entries and lists that it has, so not for a new list.
  opened-IsLate : (k : Text) → IsLate w.mounted w.entries w.issued (opened k (clear_list_cache w))
  unfolding opened show_entry clear_list_cache
  opened-IsLate k =
      let (owner, v) = Reach-IsValid before reach in
      record {
        elsewhere = λ id c below there.
            let (_, list) = v.made id c there in
            let (entry, _, _, _, _) = v.called id c there in
            (λ same. omega arith, λ same. omega arith);
        later = omega arith;
      }

  -- If the library is invalidated in a reachable world, and a list is mounted then, the list shows the
  -- first pages that the server has now, however its answers differ from those before: one page more
  -- than the loads that follow, whatever answers and failures of calls that were made before the
  -- invalidation arrive while it waits. In the end it is done as the pages are, and is not loading.
  pub invalidate_library-fresh {κ} :
      {C : Type κ} (revalidate : List Text → C → C) (c : C) (now : Text → Text → Page A) (k : Text)
      (first : List (Ending A)) (batches : List (List (Ending A)))
      → IsBelow w.issued first
      → All (IsBelow w.issued) batches
      → let w1 = (invalidate_library revalidate (c, w)).1 in
        let w2 = answer now w.issued (end_calls first (mount k w1)) in
        let s = (late_rounds now w.mounted batches w2).lists w.mounted in
        (s.items ≡ (walk (now k) (length batches + 1)).items)
        × (s.done ≡ (walk (now k) (length batches + 1)).done)
        × (s.loading ≡ false)
  unfolding invalidate_library late_round opened show_entry
  invalidate_library-fresh revalidate c now k first batches below below' =
      let w1 = clear_list_cache w in
      let at = opened-IsAt now k w1 (unused_calls before reach) in
      let (at', late) =
        late_round-IsAt now w.mounted w.entries w.issued k _ first (opened k w1) below at
          (opened-IsLate k) in
      let end' =
        late_rounds-IsAt now w.mounted w.entries w.issued k 1 batches _ below' (rw walk-suc at')
          late in
      rw (mount_new k w1 refl) (end'.shown, end'.shown_done, end'.quiet)
