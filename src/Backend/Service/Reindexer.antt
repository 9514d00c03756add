-- ===== src/Backend/Service/Reindexer.antt =====
-- `reindexDirty` of dlna/backend/backend.go: one run of the indexer.
pub mod Ends
use godlna.Base.{
  ℕ, zero, suc, ◌+◌, ◌-◌, ◌≤◌, ◌<◌, List, [], ◌∷◌, Option, none, some, Bool, true, false, ◌&&◌, not,
  if◌then◌else◌, ◌≡◌, ◌≢◌, refl, sym, ap, ◌∙◌, nat_beq, arith, ℤ, pos, All, ◌⊎◌, inl, inr,
  Bool-cases, Option-cases,
}
use godlna.Backend.Object.{Object}
use godlna.Backend.Filter.{
  Filter, SearchResponse, DatabaseDriver, dirty, reindex, by_id, ObjectSort,
}
use godlna.Backend.Service.{
  World, Media, Error, Result, ok, err, any_filter, get_one_object, reindex_object,
}

pub data Ending : Type 0 where
  drained failed stopped out_of_fuel : Ending

abbrev pub chunk_filter : ℕ → Filter
chunk_filter last = record any_filter {
  status = reindex;
  sort = by_id;
  last_visited_id = last;
  limit = pos 100;
}

abbrev pub dirty_filter : Filter
dirty_filter = record any_filter { status = dirty; sort = ObjectSort.none; limit = pos 1 }

-- The driver by the number of objects handled so far in the run, as its clock and its connection go on; `closed`
-- says likewise whether `done` is closed by then.
module _ {S F : Type 0} (drv : ℕ → DatabaseDriver S) (media : Media F) (closed : ℕ → Bool) where
  pub record Progress : Type 0 where
    pub world : World S F
    pub handled : ℕ
    pub last : ℕ
    pub halted : Bool

  -- One item.
  abbrev pub handle : Progress → Object → Progress
  handle p o = record p {
    world = (reindex_object (drv p.handled) media p.world o).0;
    handled = suc p.handled;
    last = o.id;
  }

  -- The loop over the items of one response. An error of Reindex is logged and the loop goes on.
  unfoldable pub chunk : Progress → List Object → Progress
  chunk p [] = p
  chunk p (o ∷ os) =
      let next = chunk (handle p o) os in
      if closed p.handled then record p { halted = true } else next

  -- What follows a response, for what the next round does.
  next_round : (Progress → Progress × Ending) → Progress → List Object → Progress × Ending
  unfolding chunk
  next_round again p [] = (p, drained)
  next_round again p (o ∷ os) =
      let p' = chunk p (o ∷ os) in elim p'.halted [ true ↦ (p', stopped) | false ↦ again p' ]

  -- The outer loop; the fuel bounds its rounds.
  unfoldable pub rounds : ℕ → Progress → Progress × Ending
  unfolding next_round
  rounds zero p = (p, out_of_fuel)
  rounds (suc fuel) p = elim ((drv p.handled).get_objects p.world.store (chunk_filter p.last)) [
    | none ↦ (p, failed)
    | some r ↦ next_round (λ q. rounds fuel q) p r.items
  ]

  start : World S F → Progress
  start w = record { world = w; handled = 0; last = 0; halted = false }

  found_one : Result Object → Bool
  found_one (err e) = false
  found_one (ok o) = true

  -- The end of the run: `marked` says that an Index event set the flag while the loop ran. An error of the last
  -- query is not looked at.
  settle : Bool → Progress × Ending → World S F × Bool × Ending
  unfolding found_one get_one_object
  settle marked (p, stopped) = (p.world, marked, stopped)
  settle marked (p, drained) = (
    p.world,
    if marked then true else found_one (get_one_object (drv p.handled) p.world.store dirty_filter),
    drained,
  )
  settle marked (p, failed) = (
    p.world,
    if marked then true else found_one (get_one_object (drv p.handled) p.world.store dirty_filter),
    failed,
  )
  settle marked (p, out_of_fuel) = (p.world, marked, out_of_fuel)

  -- The world, the flag and how the run ended; a run without the flag does nothing.
  unfoldable pub reindex_dirty : ℕ → Bool → Bool → World S F → World S F × Bool × Ending
  unfolding settle start rounds
  reindex_dirty fuel flag marked w =
      let run = settle marked (rounds fuel (start w)) in if flag then run else (w, false, drained)
