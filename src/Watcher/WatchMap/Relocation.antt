-- ===== src/Watcher/WatchMap/Relocation.antt =====
-- Path prefixes: what the loop body of `rename` in driver_inotify_watch_map.go makes of one path.
use mathlib.Core.List.{append_assoc, append-nil}
use godlna.Base.{
  ℕ, Text, text_beq_iff, text_eq, nat_eq, [], ◌∷◌, ◌++◌, ◌≡◌, ◌≢◌, sym, ap, ◌∙◌, ◌⊎◌, inl, inr,
  arith, text_beq, Bool-cases, true, false, if◌then◌else◌, length, drop, append_cancel,
  append-drop_of_prefix, drop-append, has_prefix-append,
}
use godlna.Watcher.WatchMap.{slash, is_under, renamed}

-- The specification: the prefix is replaced, other paths stay.
abbrev pub relocate : Text → Text → Text → Text
relocate old new p = if is_under old p then new ++ drop (length old) p else p

module _ (dir : Text) where
  pub below-is_under : (s : Text) → is_under dir (dir ++ b'/' ∷ s) ≡ true
  unfolding is_under
  below-is_under s = ground (arith, has_prefix-append (dir ++ slash) s, append_assoc dir slash s)

  pub self-is_under : is_under dir dir ≡ true
  unfolding is_under
  self-is_under = ground (arith, text_beq_iff dir dir)

  abbrev pub IsUnder : Text → Type 0
  IsUnder p = (p ≡ dir) ⊎ ((s : Text) × (p ≡ dir ++ b'/' ∷ s))

  pub is_under-IsUnder : (p : Text) → is_under dir p ≡ true → IsUnder p
  unfolding is_under
  is_under-IsUnder p h = elim (Bool-cases (text_beq p dir)) [
    | inl same ↦ inl ((text_beq_iff p dir).0 same)
    | inr other ↦ inr (
      drop (length (dir ++ slash)) p,
      sym (append-drop_of_prefix (dir ++ slash) p (ground arith))
          ∙ append_assoc dir slash (drop (length (dir ++ slash)) p),
    )
  ]

append_ne_nil : (xs : Text) (c : ℕ) (s : Text) → xs ++ c ∷ s ≢ []
append_ne_nil [] c s h = cc
append_ne_nil (x ∷ xs) c s h = cc

pub append-cons-ne : (xs : Text) (c : ℕ) (s : Text) → xs ≢ xs ++ c ∷ s
append-cons-ne xs c s h = let e : [] ≡ c ∷ s = append_cancel xs (append-nil xs ∙ h) in cc

module _ (old new : Text) where
  abbrev pub Renames : Text → Text → Type 0
  Renames p r =
      ((p ≡ old) × (r ≡ new)) ⊎ ((s : Text) × (p ≡ old ++ b'/' ∷ s) × (r ≡ new ++ b'/' ∷ s))

  renamed_self : renamed old new old ≡ new
  unfolding renamed
  renamed_self = ground (arith, text_beq_iff old old)

  renamed-below : (s : Text) → renamed old new (old ++ b'/' ∷ s) ≡ new ++ b'/' ∷ s
  unfolding renamed
  renamed-below s = rw (drop-append old (b'/' ∷ s)) (
      ground (
        arith,
        text_beq_iff (old ++ b'/' ∷ s) old,
        append-cons-ne old b'/' s,
        has_prefix-append (old ++ slash) s,
        append_assoc old slash s,
      ))

  pub renamed-Renames : (p : Text) → is_under old p ≡ true → Renames p (renamed old new p)
  renamed-Renames p h = elim (is_under-IsUnder old p h) [
    | inl e ↦ inl (e, rw e renamed_self)
    | inr (s, e) ↦ inr (s, e, rw e (renamed-below s))
  ]

  pub renamed_other : (p : Text) → is_under old p ≡ false → renamed old new p ≡ []
  unfolding renamed is_under
  renamed_other p h = ground arith

  drop_self : drop (length old) old ≡ []
  drop_self = sym (ap (drop (length old)) (append-nil old)) ∙ drop-append old []

  pub renamed_relocates :
      (p : Text) → is_under old p ≡ true → renamed old new p ≡ new ++ drop (length old) p
  renamed_relocates p h = elim (is_under-IsUnder old p h) [
    | inl e ↦ rw (e, drop_self, append-nil new) renamed_self
    | inr (s, e) ↦ rw (e, drop-append old (b'/' ∷ s)) (renamed-below s)
  ]

  Renames-injective : (p q r t : Text) → Renames p r → Renames q t → r ≡ t → p ≡ q
  Renames-injective p q r t (inl (e, f)) (inl (g, h)) k = e ∙ sym g
  Renames-injective p q r t (inl (e, f)) (inr (s, g, h)) k =
      absurd (append-cons-ne new b'/' s (sym f ∙ k ∙ h))
  Renames-injective p q r t (inr (s, e, f)) (inl (g, h)) k =
      absurd (append-cons-ne new b'/' s (sym h ∙ sym k ∙ f))
  Renames-injective p q r t (inr (s, e, f)) (inr (u, g, h)) k =
      e ∙ ap (◌++◌ old) (append_cancel new (sym f ∙ k ∙ h)) ∙ sym g

  -- Two paths that move never meet.
  pub renamed-injective :
      (p q : Text)
      → is_under old p ≡ true
      → is_under old q ≡ true
      → renamed old new p ≡ renamed old new q
      → p ≡ q
  renamed-injective p q hp hq =
      Renames-injective p q _ _ (renamed-Renames p hp) (renamed-Renames q hq)

  pub renamed-is_under :
      (p : Text) → is_under old p ≡ true → is_under new (renamed old new p) ≡ true
  renamed-is_under p h = elim (renamed-Renames p h) [
    | inl (_, e) ↦ rw e (self-is_under new)
    | inr (s, _, e) ↦ rw e (below-is_under new s)
  ]

  -- Only a directory that moves to the empty name is left where it was.
  pub renamed-ne-nil : new ≢ [] → (p : Text) → is_under old p ≡ true → renamed old new p ≢ []
  renamed-ne-nil h p u e = elim (renamed-Renames p u) [
    | inl (_, f) ↦ h (sym f ∙ e)
    | inr (s, _, f) ↦ append_ne_nil new b'/' s (sym f ∙ e)
  ]

  pub relocate_self : relocate old new old ≡ new
  relocate_self = rw (self-is_under old, drop_self) (append-nil new)
