-- ===== src/Watcher/Goroutines.antt =====
-- Goroutines that wait: which of them goes on is open, so a step picks one from the list.
use godlna.Base.{List, [], ◌∷◌, ◌++◌, ◌≡◌, sym, ◌∙◌, ◌⊎◌, inl, inr, All}

module _ {A : Type 0} where
  abbrev pub IsIn : A → List A → Type 0
  IsIn x [] = ⊥
  IsIn x (y ∷ ys) = (x ≡ y) ⊎ IsIn x ys

  pub IsIn-append : (x : A) (xs ys : List A) → IsIn x xs ⊎ IsIn x ys → IsIn x (xs ++ ys)
  IsIn-append x [] ys (inl h) = absurd h
  IsIn-append x [] ys (inr h) = h
  IsIn-append x (z ∷ xs) ys (inl (inl e)) = inl e
  IsIn-append x (z ∷ xs) ys (inl (inr h)) = inr (IsIn-append x xs ys (inl h))
  IsIn-append x (z ∷ xs) ys (inr h) = inr (IsIn-append x xs ys (inr h))

  pub All-IsIn : (Q : A → Type 0) (x : A) (xs : List A) → All Q xs → IsIn x xs → Q x
  All-IsIn Q x [] a i = absurd i
  All-IsIn Q x (y ∷ ys) (h, a) (inl e) = rw e h
  All-IsIn Q x (y ∷ ys) (h, a) (inr i) = All-IsIn Q x ys a i

  -- The first is taken out of the list, and the rest are left.
  abbrev pub Picks : List A → A → List A → Type 0
  Picks [] g rest = ⊥
  Picks (x ∷ xs) g rest =
      ((g ≡ x) × (rest ≡ xs)) ⊎ ((more : List A) × (rest ≡ x ∷ more) × Picks xs g more)

  pub Picks-All :
      (Q : A → Type 0) (gs : List A) (g : A) (rest : List A)
      → Picks gs g rest
      → All Q gs
      → All Q rest
  Picks-All Q [] g rest h a = absurd h
  Picks-All Q (x ∷ gs) g rest (inl (e, f)) (q, a) = rw f a
  Picks-All Q (x ∷ gs) g rest (inr (more, f, h)) (q, a) = rw f (q, Picks-All Q gs g more h a)

  pub Picks-IsIn :
      (gs : List A) (g h : A) (rest : List A) → Picks gs g rest → IsIn h gs → (h ≡ g) ⊎ IsIn h rest
  Picks-IsIn [] g h rest k i = absurd k
  Picks-IsIn (x ∷ gs) g h rest (inl (e, f)) (inl i) = inl (i ∙ sym e)
  Picks-IsIn (x ∷ gs) g h rest (inl (e, f)) (inr i) = inr (rw f i)
  Picks-IsIn (x ∷ gs) g h rest (inr (more, f, k)) (inl i) = inr (rw f (inl i))
  Picks-IsIn (x ∷ gs) g h rest (inr (more, f, k)) (inr i) = elim (Picks-IsIn gs g h more k i) [
    | inl e ↦ inl e
    | inr j ↦ inr (rw f (inr j))
  ]
