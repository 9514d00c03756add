-- ===== src/Backend/Service/Reindexer/Ends.antt =====
-- `reindexDirty` of dlna/backend/backend.go comes to an end: what it needs of the driver, and the fuel.
use godlna.Base.{
  ℕ, zero, suc, ◌+◌, ◌≤◌, ◌<◌, List, [], ◌∷◌, Option, none, some, Bool, true, false, ◌≡◌, ◌≢◌, refl,
  sym, ap, ◌∙◌, arith, ℤ, All, ◌⊎◌, inl, inr, Bool-cases, Option-cases,
}
use godlna.Backend.Object.{Object, VideoInfo}
use godlna.Backend.Filter.{Filter, SearchResponse, DatabaseDriver}
use godlna.Backend.Service.{
  World, Media, get_one_object, first_item, reindex_object, by_type, reindex_video,
  update_reindexed, finish_reindex,
}
use godlna.Backend.Service.Reindexer.{
  Ending, drained, failed, stopped, out_of_fuel, handle, chunk_filter, dirty_filter, Progress,
  chunk, rounds, next_round, start, settle, reindex_dirty, found_one,
}

-- What the indexer relies on: the states it meets are good ones, in which no number is above a bound; a search gives
-- objects after the last one visited; and an update keeps the state good and the numbers in use.
pub record IsPaged {S : Type 0} (drv : ℕ → DatabaseDriver S) : Type 1 where
  pub IsGood : S → Type 0
  pub bound : S → ℕ
  pub later :
      (k : ℕ) (s : S) (f : Filter) (r : SearchResponse)
      → IsGood s
      → (drv k).get_objects s f ≡ some r
      → All (λ o. (f.last_visited_id < o.id) × (o.id ≤ bound s)) r.items
  pub update :
      (k : ℕ) (s s' : S) (o : Object) (v : Option VideoInfo) (b : Option (Option ℤ))
      → IsGood s
      → ((drv k).update_object s o v b).1 ≡ some s'
      → IsGood s' × (bound s' ≡ bound s)

module _ {S F : Type 0} (drv : ℕ → DatabaseDriver S) (media : Media F) (closed : ℕ → Bool)
    (paged : IsPaged drv) where
  -- The store is good and its bound is the given one.
  abbrev Holds : ℕ → S → Type 0
  Holds b s = paged.IsGood s × (paged.bound s ≡ b)

  finish_reindex-store :
      (k : ℕ) (w : World S F) (o : Object) (b : Option ℤ)
      → (finish_reindex (drv k) media w o b).0.store ≡ w.store
  unfolding finish_reindex
  finish_reindex-store k w o b = ground arith

  -- The store is as it was, or is what one update gave.
  abbrev Steps : ℕ → S → S → Type 0
  Steps k s s' =
      (s' ≡ s)
      ⊎ ((o : Object) × (v : Option VideoInfo) × (b : Option (Option ℤ)) × (((drv k).update_object s
              o v b).1
            ≡ some s'))

  update_reindexed-Steps :
      (k : ℕ) (w : World S F) (o : Object) (v : VideoInfo) (b : Option (Option ℤ))
      → Steps k w.store (update_reindexed (drv k) media w o v b).0.store
  unfolding update_reindexed
  update_reindexed-Steps k w o v none = inl refl
  update_reindexed-Steps k w o v (some b) =
      elim (Option-cases ((drv k).update_object w.store o (some v) (some b)).1) [
        | inl e ↦ inl (ground (arith, e))
        | inr (s, e) ↦ inr (
          o,
          some v,
          some b,
          e
              ∙ ap some (
                  sym (
                    ground (
                      arith,
                      e,
                      finish_reindex-store k (record w { store = s })
                          ((drv k).update_object w.store o (some v) (some b)).0 b,
                    ))),
        )
      ]

  reindex_video-Steps :
      (k : ℕ) (w : World S F) (o : Object)
      → Steps k w.store (reindex_video (drv k) media w o).0.store
  unfolding reindex_video
  reindex_video-Steps k w o = elim (Option-cases (media.get_video_info w.files o.path).1) [
    | inl e ↦ inl (ground (arith, e))
    | inr (v, e) ↦ ground (
      arith,
      e,
      update_reindexed-Steps k (record w { files = (media.get_video_info w.files o.path).0 }) o v
          (media.get_bookmark_info (media.get_video_info w.files o.path).0 o.path),
    )
  ]

  reindex_object-Steps :
      (k : ℕ) (w : World S F) (o : Object)
      → Steps k w.store (reindex_object (drv k) media w o).0.store
  unfolding reindex_object by_type
  reindex_object-Steps k w o = ground (arith, reindex_video-Steps k w o)

  Steps-Holds : (k n : ℕ) (s s' : S) → Steps k s s' → Holds n s → Holds n s'
  Steps-Holds k n s s' (inl e) h = rw e h
  Steps-Holds k n s s' (inr (o, v, b, e)) h =
      let (g, same) = paged.update k s s' o v b h.0 e in (g, same ∙ h.1)

  abbrev Advanced : ℕ → Progress drv media closed → Progress drv media closed → Type 0
  Advanced n p q = Holds n q.world.store × (p.last ≤ q.last) × (q.last ≤ n)

  -- Every item of a response lies after the last one of the response before, and in reach.
  abbrev After : ℕ → ℕ → List Object → Type 0
  After last n = All (λ o. (last < o.id) × (o.id ≤ n))

  chunk-Holds :
      (n : ℕ) (p : Progress drv media closed) (os : List Object)
      → Holds n p.world.store
      → Holds n (chunk drv media closed p os).world.store
  unfolding chunk
  chunk-Holds n p [] h = h
  chunk-Holds n p (o ∷ os) h = elim (Bool-cases (closed p.handled)) [
    | inl e ↦ rw e h
    | inr e ↦ rw e (
        chunk-Holds n (handle drv media closed p o) os
          (Steps-Holds p.handled n p.world.store _ (reindex_object-Steps p.handled p.world o) h))
  ]

  chunk-last :
      (n start : ℕ) (p : Progress drv media closed) (os : List Object)
      → start < p.last
      → p.last ≤ n
      → After start n os
      → (start < (chunk drv media closed p os).last) × ((chunk drv media closed p os).last ≤ n)
  unfolding chunk
  chunk-last n start p [] l u a = (l, u)
  chunk-last n start p (o ∷ os) l u ((a, b), rest) =
      ground (arith, chunk-last n start (handle drv media closed p o) os a b rest)

  -- A response that was handled to its end has moved the last number on.
  chunk_moves :
      (n : ℕ) (p : Progress drv media closed) (o : Object) (os : List Object)
      → After p.last n (o ∷ os)
      → (chunk drv media closed p (o ∷ os)).halted ≡ false
      → (p.last < (chunk drv media closed p (o ∷ os)).last)
        × ((chunk drv media closed p (o ∷ os)).last ≤ n)
  unfolding chunk
  chunk_moves n p o os ((a, b), rest) e =
      ground (arith, chunk-last n p.last (handle drv media closed p o) os a b rest)

  next_round_end :
      (fuel n : ℕ) (p : Progress drv media closed) (os : List Object)
      → ((q : Progress drv media closed)
          → Holds n q.world.store
          → q.last ≤ n
          → n < q.last + fuel
          → (rounds drv media closed fuel q).1 ≢ out_of_fuel)
      → Holds n p.world.store
      → n < p.last + suc fuel
      → After p.last n os
      → (next_round drv media closed (λ q. rounds drv media closed fuel q) p os).1 ≢ out_of_fuel
  unfolding next_round
  next_round_end fuel n p [] again h l a = λ g. cc
  next_round_end fuel n p (o ∷ os) again h l a =
      elim (Bool-cases (chunk drv media closed p (o ∷ os)).halted) [
        | inl e ↦ rw (e, next_round) (λ k. cc)
        | inr e ↦
            let (lo, hi) = chunk_moves n p o os a e in
            rw (e, next_round)
              (again (chunk drv media closed p (o ∷ os)) (chunk-Holds n p (o ∷ os) h) hi
                (omega arith))
      ]

  rounds_end :
      (fuel n : ℕ) (p : Progress drv media closed)
      → Holds n p.world.store
      → p.last ≤ n
      → n < p.last + fuel
      → (rounds drv media closed fuel p).1 ≢ out_of_fuel
  unfolding rounds
  rounds_end zero n p h l e = absurd (omega arith)
  rounds_end (suc fuel) n p h l e =
      elim (Option-cases ((drv p.handled).get_objects p.world.store (chunk_filter p.last))) [
        | inl f ↦ rw (f, rounds) (λ g. cc)
        | inr (r, f) ↦
            rw (f, rounds)
              (next_round_end fuel n p r.items (rounds_end fuel n) h e
                (rw h.1 at (paged.later p.handled p.world.store (chunk_filter p.last) r h.0 f)))
      ]

  settle-ending :
      (marked : Bool) (run : Progress drv media closed × Ending)
      → (settle drv media closed marked run).2 ≡ run.1
  unfolding settle
  settle-ending marked (p, drained) = refl
  settle-ending marked (p, failed) = refl
  settle-ending marked (p, stopped) = refl
  settle-ending marked (p, out_of_fuel) = refl

  -- A run of the indexer over a driver that pages as expected, on a good state, with more fuel than the largest
  -- number in use: it does not run out of fuel, whatever the files, the errors of single objects, the failing
  -- queries and the end of the server do.
  pub reindex_dirty_ends :
      (fuel : ℕ) (flag marked : Bool) (w : World S F)
      → paged.IsGood w.store
      → paged.bound w.store < fuel
      → (reindex_dirty drv media closed fuel flag marked w).2 ≢ out_of_fuel
  unfolding reindex_dirty
  reindex_dirty_ends fuel false marked w g l = λ k. cc
  reindex_dirty_ends fuel true marked w g l =
      rw (settle-ending marked (rounds drv media closed fuel (start drv media closed w))) (
        rounds_end fuel (paged.bound w.store) (start drv media closed w) (unfold start in (g, refl))
          (unfold start in omega arith) (unfold start in omega arith))

-- A run during which no query is answered: the flag is down afterwards, unless an event raised it meanwhile, and
-- the world is as it was.
pub reindex_dirty_forgets :
    {S F : Type 0} (drv : ℕ → DatabaseDriver S) (media : Media F) (closed : ℕ → Bool) (fuel : ℕ)
    (marked : Bool) (w : World S F)
    → ((k : ℕ) (f : Filter) → (drv k).get_objects w.store f ≡ none)
    → reindex_dirty drv media closed (suc fuel) true marked w ≡ (w, marked, failed)
unfolding reindex_dirty settle start rounds found_one get_one_object first_item
reindex_dirty_forgets drv media closed fuel marked w down =
    ground (arith, down 0 (chunk_filter 0), down 0 dirty_filter)
