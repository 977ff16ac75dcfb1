-- ===== src/Transfer/Pipeline/Steps.antt =====
-- src/packed-grid/transferPipeline.ts: one round of the loop, by how the request, the upload and the release
-- of the first outstanding item settle.
use mistr.Prelude.{Result, ok, err, ◌≡◌, refl, List, [], ◌∷◌, ◌++◌}
use mistr.Transfer.Pipeline.{drain, use_lease, loop, requested, consumed, released}

module _ {Item Lease Error : Type 0} (request : Item → Result Error Lease)
    (consume : Lease → Result Error (Unit {0})) (release : Lease → Result Error (Unit {0})) where
  pub loop-nil : (items : List Item) → loop request consume release [] items ≡ (ok tt, [])
  unfolding loop
  loop-nil items = refl

  pub loop-failed :
      (p : Item) (pending items : List Item) (e : Error)
      → request p ≡ err e
      → loop request consume release (p ∷ pending) items
        ≡ (err e, drain request consume release pending)
  unfolding loop
  loop-failed p pending [] e failed = rw (failed, loop)
  loop-failed p pending (item ∷ items) e failed = rw (failed, loop)

  pub loop-stops :
      (p : Item) (pending items : List Item) (lease : Lease) (e : Error)
      → request p ≡ ok lease
      → use_lease request consume release lease ≡ err e
      → loop request consume release (p ∷ pending) items
        ≡ (err e, consumed lease ∷ released lease ∷ drain request consume release pending)
  unfolding loop
  loop-stops p pending [] lease e got failed = rw (got, loop, failed)
  loop-stops p pending (item ∷ items) lease e got failed = rw (got, loop, failed)

  pub loop-last :
      (p : Item) (pending : List Item) (lease : Lease) {done : Unit {0}}
      → request p ≡ ok lease
      → use_lease request consume release lease ≡ ok done
      → let rest = loop request consume release pending [] in
        loop request consume release (p ∷ pending) []
        ≡ (rest.0, consumed lease ∷ released lease ∷ rest.1)
  unfolding loop
  loop-last p pending lease got used = rw (got, loop, used)

  pub loop-next :
      (p : Item) (pending : List Item) (item : Item) (items : List Item) (lease : Lease)
      {done : Unit {0}}
      → request p ≡ ok lease
      → use_lease request consume release lease ≡ ok done
      → let rest = loop request consume release (pending ++ item ∷ []) items in
        loop request consume release (p ∷ pending) (item ∷ items)
        ≡ (rest.0, consumed lease ∷ released lease ∷ requested item ∷ rest.1)
  unfolding loop
  loop-next p pending item items lease got used = rw (got, loop, used)
