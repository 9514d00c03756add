-- ===== src/Backend/Table/Moves.antt =====
-- An UPDATE of paths in scripts/schema.psql.sql that meets no conflict.
use mathlib.Core.List.{append_assoc, append-nil}
use godlna.Base.{
  Text, text_beq_iff, List, [], ◌∷◌, ◌++◌, Option, none, some, Bool, true, false, ◌||◌, ◌≡◌, ◌≢◌,
  refl, ap, ◌∙◌, arith, inl, inr, Option-cases, All, All-append,
}
use godlna.Backend.Object.{Object}
use godlna.Backend.Table.{has_path, update_paths}
use godlna.Backend.Table.Rows.{DistinctPaths}

-- The rows with their paths changed, in the same order.
abbrev pub repath : (Text → Text) → List Object → List Object
repath f [] = []
repath f (r ∷ rs) = record r { path = f r.path } ∷ repath f rs

abbrev pub or_same : Text → Option Text → Text
or_same p none = p
or_same p (some q) = q

abbrev pub chosen : (Text → Option Text) → Text → Text
chosen move p = or_same p (move p)

pub has_path-append :
    (p : Text) (xs ys : List Object) → has_path p (xs ++ ys) ≡ (has_path p xs || has_path p ys)
unfolding has_path
has_path-append p [] ys = refl
has_path-append p (x ∷ xs) ys = ground (arith, has_path-append p xs ys)

-- No path that the statement gives is taken by another row at the time.
abbrev IsClear : (Text → Option Text) → List Object → List Object → Type 0
IsClear move done [] = Unit
IsClear move done (r ∷ rs) =
    ((q : Text) → move r.path ≡ some q → has_path q (done ++ rs) ≡ false)
    × IsClear move (done ++ record r { path = chosen move r.path } ∷ []) rs

update_paths-cons :
    (move : Text → Option Text) (r : Object) (rs done : List Object)
    → ((q : Text) → move r.path ≡ some q → has_path q (done ++ rs) ≡ false)
    → update_paths move done (r ∷ rs)
      ≡ update_paths move (done ++ record r { path = chosen move r.path } ∷ []) rs
unfolding update_paths
update_paths-cons move r rs done free = elim (Option-cases (move r.path)) [
  | inl e ↦ rw (e, update_paths) refl
  | inr (q, e) ↦ rw (e, update_paths, free q e) refl
]

update_paths_clear :
    (move : Text → Option Text) (rows done : List Object)
    → IsClear move done rows
    → update_paths move done rows ≡ some (done ++ repath (chosen move) rows)
update_paths_clear move [] done c = unfold update_paths in rw append-nil refl
update_paths_clear move (r ∷ rs) done (free, c) =
    update_paths-cons move r rs done free
    ∙ update_paths_clear move rs (done ++ record r { path = chosen move r.path } ∷ []) c
    ∙ ap some
        (append_assoc done (record r { path = chosen move r.path } ∷ []) (repath (chosen move) rs))

-- A statement that moves paths into a zone where no row stands, no two of them to one place.
module _ (move : Text → Option Text) (zone : Text → Bool)
    (lands : (p q : Text) → move p ≡ some q → zone q ≡ true)
    (apart : (p p' q : Text) → move p ≡ some q → move p' ≡ some q → p ≡ p') where
  abbrev pub OffZone : List Object → Type 0
  OffZone = All (λ r. zone r.path ≡ false)

  has_path-off : (q : Text) (rs : List Object) → zone q ≡ true → OffZone rs → has_path q rs ≡ false
  unfolding has_path
  has_path-off q [] z o = refl
  has_path-off q (r ∷ rs) z (n, o) = ground (arith, text_beq_iff r.path q, has_path-off q rs z o)

  has_path-moved :
      (p q : Text) (rs : List Object)
      → move p ≡ some q
      → All (λ r. r.path ≢ p) rs
      → OffZone rs
      → has_path q (repath (chosen move) rs) ≡ false
  unfolding has_path
  has_path-moved p q [] e ne o = refl
  has_path-moved p q (r ∷ rs) e (n, ne) (z, o) = ground (
    arith,
    text_beq_iff (chosen move r.path) q,
    lands p q e,
    apart r.path p q,
    has_path-moved p q rs e ne o,
  )

  has_path-stay :
      (p : Text) (rs : List Object)
      → zone p ≡ false
      → has_path p rs ≡ false
      → has_path p (repath (chosen move) rs) ≡ false
  unfolding has_path
  has_path-stay p [] z h = refl
  has_path-stay p (r ∷ rs) z h = elim (Option-cases (move r.path)) [
    | inl e ↦ ground (arith, e, has_path-stay p rs z)
    | inr (q, e) ↦ ground (arith, e, lands r.path q e, text_beq_iff q p, has_path-stay p rs z)
  ]

  others :
      (r : Object) (rs : List Object) → has_path r.path rs ≡ false → All (λ x. x.path ≢ r.path) rs
  unfolding has_path
  others r [] h = tt
  others r (x ∷ rs) h = (ground (arith, text_beq_iff x.path r.path), others r rs (ground arith))

  earlier :
      (done rs : List Object) (r : Object)
      → DistinctPaths (done ++ r ∷ rs)
      → All (λ x. x.path ≢ r.path) done
  unfolding has_path
  earlier [] rs r d = tt
  earlier (x ∷ done) rs r (f, d) = (
    ground (arith, has_path-append x.path done (r ∷ rs), text_beq_iff r.path x.path),
    earlier done rs r d,
  )

  repath-append :
      (f : Text → Text) (xs ys : List Object) → repath f (xs ++ ys) ≡ repath f xs ++ repath f ys
  repath-append f [] ys = refl
  repath-append f (x ∷ xs) ys = ap (◌∷◌ (record x { path = f x.path })) (repath-append f xs ys)

  clear :
      (rs done : List Object)
      → DistinctPaths (done ++ rs)
      → OffZone done
      → OffZone rs
      → IsClear move (repath (chosen move) done) rs
  clear [] done d od o = tt
  clear (r ∷ rs) done d od (z, o) = (
    λ q e. ground (
      arith,
      has_path-append q (repath (chosen move) done) rs,
      has_path-moved r.path q done e (earlier done rs r d) od,
      has_path-off q rs (lands r.path q e) o,
    ),
    rw (repath-append (chosen move) done (r ∷ [])) at (
        clear rs (done ++ r ∷ []) (rw (append_assoc done (r ∷ []) rs) d)
          (All-append (λ x. zone x.path ≡ false) done (r ∷ []) od (z, tt)) o),
  )

  pub repath-Distinct :
      (rs : List Object) → DistinctPaths rs → OffZone rs → DistinctPaths (repath (chosen move) rs)
  repath-Distinct [] d o = tt
  repath-Distinct (r ∷ rs) (f, d) (z, o) = (fresh, repath-Distinct rs d o)
    where
      fresh : has_path (chosen move r.path) (repath (chosen move) rs) ≡ false
      fresh = elim (Option-cases (move r.path)) [
        | inl e ↦ rw e (has_path-stay r.path rs z f)
        | inr (q, e) ↦ rw e (has_path-moved r.path q rs e (others r rs f) o)
      ]

  pub moves :
      (rs : List Object)
      → DistinctPaths rs
      → OffZone rs
      → update_paths move [] rs ≡ some (repath (chosen move) rs)
  moves rs d o = update_paths_clear move rs [] (clear rs [] d tt o)

pub repath_twice :
    (f g h : Text → Text) (rs : List Object)
    → All (λ r. g (f r.path) ≡ h r.path) rs
    → repath g (repath f rs) ≡ repath h rs
repath_twice f g h [] a = refl
repath_twice f g h (r ∷ rs) (e, a) = cc (e, repath_twice f g h rs a)
