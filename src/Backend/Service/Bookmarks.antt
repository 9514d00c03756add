-- ===== src/Backend/Service/Bookmarks.antt =====
-- `SetBookmark` of dlna/backend/backend.go: when it succeeds, and what a failed thumbnail leaves.
use godlna.Base.{
  ℕ, zero, suc, ℤ, negsuc, none, some, true, false, ◌≡◌, ◌≢◌, refl, ap, arith, pos, ◌⊎◌, inl, inr,
  Option-cases, Bool-cases,
}
use godlna.Backend.Object.{Object, option_beq, option_beq_iff}
use godlna.Backend.Filter.{DatabaseDriver}
use godlna.Backend.Service.{
  World, Media, Error, Result, ok, err, thumbnail_error, no_rows, by_number, get_one_object,
  after_update, store_bookmark, with_object, set_bookmark,
}

finds : (r : Result Object) → ((e : Error) × (r ≡ err e)) ⊎ ((o : Object) × (r ≡ ok o))
finds (err e) = inl (e, refl)
finds (ok o) = inr (o, refl)

module _ {S F : Type 0} (drv : DatabaseDriver S) (media : Media F) (w : World S F) (n b : ℕ) where
  -- The object that was read, and the row, the thumbnail and the cache file once they are all written.
  abbrev pub IsSaved : Object → Object → S → Type 0
  IsSaved o o' s =
      (drv.update_object w.store o none (some (some (pos b))) ≡ (o', some s))
      × ((media.make_thumbnail w.files o'.path o'.duration (some (pos b))).1 ≡ true)
      × ((media.set_bookmark_info
            (media.make_thumbnail w.files o'.path o'.duration (some (pos b))).0 o'.path
            (some (pos b))).1
          ≡ true)

  -- A bookmark that the object did not have: the files are those that the cache file was written to.
  pub set_bookmark_files :
      (o : Object)
      → get_one_object drv w.store (by_number (suc n)) ≡ ok o
      → o.bookmark ≢ some (pos b)
      → (set_bookmark drv media w (pos (suc n)) (pos b)).1 ≡ none
      → let o' = (drv.update_object w.store o none (some (some (pos b)))).0 in
        let files = (media.make_thumbnail w.files o'.path o'.duration (some (pos b))).0 in
        ((media.set_bookmark_info files o'.path (some (pos b))).1 ≡ true)
        × ((set_bookmark drv media w (pos (suc n)) (pos b)).0.files
            ≡ (media.set_bookmark_info files o'.path (some (pos b))).0)
  unfolding set_bookmark with_object store_bookmark after_update
  set_bookmark_files o f d h = elim (Bool-cases (option_beq o.bookmark (some (pos b)))) [
    | inl g ↦ absurd (d ((option_beq_iff o.bookmark (some (pos b))).0 g))
    | inr g ↦ elim (Option-cases (drv.update_object w.store o none (some (some (pos b)))).1) [
      | inl u ↦ absurd (ground (arith, f, g, u, h))
      | inr (s, u) ↦
          let o' = (drv.update_object w.store o none (some (some (pos b)))).0 in
          let first = media.make_thumbnail w.files o'.path o'.duration (some (pos b)) in
          let second = media.set_bookmark_info first.0 o'.path (some (pos b)) in
          let made : first.1 ≡ true = ground (arith, f, g, u, h) in
          let written : second.1 ≡ true = ground (arith, f, g, u, made, h) in
          (written, ground (arith, f, g, u, made, written))
    ]
  ]

  set_bookmark_done :
      (set_bookmark drv media w (pos (suc n)) (pos b)).1 ≡ none
      → (o : Object) × (get_one_object drv w.store (by_number (suc n)) ≡ ok o)
        × (((o.bookmark ≡ some (pos b)) × (set_bookmark drv media w (pos (suc n)) (pos b)).0 ≡ w)
            ⊎ ((o' : Object) × (s : S) × IsSaved o o' s
                × ((set_bookmark drv media w (pos (suc n)) (pos b)).0.store ≡ s)))
  unfolding set_bookmark with_object store_bookmark after_update
  set_bookmark_done h = elim (finds (get_one_object drv w.store (by_number (suc n)))) [
    | inl (e, f) ↦ absurd (ground (arith, f, h))
    | inr (o, f) ↦ (
      o,
      f,
      elim (Bool-cases (option_beq o.bookmark (some (pos b)))) [
        | inl g ↦
            inl (ground (arith, option_beq_iff o.bookmark (some (pos b))), ground (arith, f, g))
        | inr g ↦ elim (Option-cases (drv.update_object w.store o none (some (some (pos b)))).1) [
          | inl u ↦ absurd (ground (arith, f, g, u, h))
          | inr (s, u) ↦
              let o' = (drv.update_object w.store o none (some (some (pos b)))).0 in
              let first = media.make_thumbnail w.files o'.path o'.duration (some (pos b)) in
              let second = media.set_bookmark_info first.0 o'.path (some (pos b)) in
              let made : first.1 ≡ true = ground (arith, f, g, u, h) in
              let written : second.1 ≡ true = ground (arith, f, g, u, made, h) in
              inr (
                o',
                s,
                (ap (λ y. (o', y)) u, made, written),
                ground (arith, f, g, u, made, written),
              )
        ]
      ],
    )
  ]

  -- A bookmark that is not stored yet, on a database that stores it and keeps the object's path and duration, while
  -- no thumbnail can be made: the call is an error, the row has the bookmark and the cache file is not written. The
  -- same call again, on a database that gives the row back, reports success and still writes no cache file.
  pub set_bookmark_unsaved :
      (o o' : Object) (s : S)
      → get_one_object drv w.store (by_number (suc n)) ≡ ok o
      → o.bookmark ≢ some (pos b)
      → drv.update_object w.store o none (some (some (pos b))) ≡ (o', some s)
      → (media.make_thumbnail w.files o'.path o'.duration (some (pos b))).1 ≡ false
      → get_one_object drv s (by_number (suc n)) ≡ ok o'
      → o'.bookmark ≡ some (pos b)
      → let failed = set_bookmark drv media w (pos (suc n)) (pos b) in
        (failed ≡ (
          record {
            store = s;
            files = (media.make_thumbnail w.files o'.path o'.duration (some (pos b))).0;
          },
          some thumbnail_error,
        ))
        × (set_bookmark drv media failed.0 (pos (suc n)) (pos b) ≡ (failed.0, none))
  unfolding set_bookmark with_object store_bookmark after_update
  set_bookmark_unsaved o o' s found new stores fails again has = ground (
    arith,
    option_beq_iff o.bookmark (some (pos b)),
    option_beq_iff o'.bookmark (some (pos b)),
    found,
    stores,
    fails,
    again,
    has,
  )

module _ {S F : Type 0} (drv : DatabaseDriver S) (media : Media F) (w : World S F) where
  -- Setting a bookmark succeeds only if it is negative, in which case nothing is done, or else the number is positive
  -- and the object is found, and it has this bookmark already, in which case nothing is written, or else the row, the
  -- thumbnail and the cache file are all written, and then nothing more.
  pub set_bookmark_success :
      (id bookmark : ℤ)
      → (set_bookmark drv media w id bookmark).1 ≡ none
      → ((n : ℕ) × (bookmark ≡ negsuc n) × (set_bookmark drv media w id bookmark ≡ (w, none)))
        ⊎ ((n : ℕ) × (b : ℕ) × (id ≡ pos (suc n))
            × (bookmark ≡ pos b)
            × (o : Object) × (get_one_object drv w.store (by_number (suc n)) ≡ ok o)
            × (((o.bookmark ≡ some (pos b)) × (set_bookmark drv media w id bookmark).0 ≡ w)
                ⊎ ((o' : Object) × (s : S) × IsSaved drv media w n b o o' s
                    × ((set_bookmark drv media w id bookmark).0.store ≡ s))))
  set_bookmark_success id (negsuc n) h = inl (n, refl, unfold set_bookmark in refl)
  set_bookmark_success (pos zero) (pos b) h =
      let e : (set_bookmark drv media w (pos zero) (pos b)).1 ≡ some no_rows =
        unfold set_bookmark in refl in
      absurd (cc)
  set_bookmark_success (negsuc n) (pos b) h =
      let e : (set_bookmark drv media w (negsuc n) (pos b)).1 ≡ some no_rows =
        unfold set_bookmark in refl in
      absurd (cc)
  set_bookmark_success (pos (suc n)) (pos b) h =
      let (o, f, x) = set_bookmark_done drv media w n b h in inr (n, b, refl, refl, o, f, x)
