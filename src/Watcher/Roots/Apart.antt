-- ===== src/Watcher/Roots/Apart.antt =====
-- pkg/fswatcher/common.go: the roots that are accepted lie apart.
use godlna.Watcher.Goroutines.{IsIn, All-IsIn}
use godlna.Watcher.WatchMap.{is_under}
use godlna.Base.{
  ℕ, sym, ◌∙◌, Text, codes, text_beq, has_prefix, has_prefix_refl, List, [], ◌∷◌, ◌++◌, none, some,
  true, false, ◌≡◌, ◌≢◌, refl, ◌⊎◌, inl, inr, arith, All, All-append, text_beq_iff, Bool-cases,
}
use godlna.Watcher.Roots.{
  Stat, no_absolute, no_stat, non_directory, directory, AddError, Added, accepted, rejected,
  check_added, validated_add_dir, add_directory, new,
}

-- Neither path is the other or lies under it.
abbrev pub IsApart : Text → Text → Type 0
IsApart p q =
    (p ≢ q)
    × (has_prefix (q ++ codes "/") (p ++ codes "/") ≡ false)
    × (has_prefix (p ++ codes "/") (q ++ codes "/") ≡ false)

-- Any two roots are apart.
abbrev pub IsSeparate : List Text → Type 0
IsSeparate [] = Unit
IsSeparate (r ∷ rs) = All (IsApart r) rs × IsSeparate rs

check_added-All :
    (path : Text) (roots : List Text) (p : Text)
    → check_added path roots ≡ accepted p
    → (p ≡ path) × All (λ r. IsApart r path) roots
unfolding check_added
check_added-All path [] p h = (ground (arith, h), tt)
check_added-All path (v ∷ vs) p h =
    ground (arith, check_added-All path vs p, text_beq_iff path v, h)

check_added-accepted :
    (path : Text) (roots : List Text)
    → All (λ r. IsApart r path) roots
    → check_added path roots ≡ accepted path
unfolding check_added
check_added-accepted path [] a = refl
check_added-accepted path (v ∷ vs) (h, a) =
    ground (arith, check_added-accepted path vs a, text_beq_iff path v, h)

-- A directory is added exactly when it is apart from every root; then it is the last root, and otherwise the roots
-- stay as they are and there is an error.
pub add_directory-IsApart :
    (path : Text) (roots : List Text)
    → ((add_directory (directory path) roots ≡ (roots ++ path ∷ [], none))
        × All (λ r. IsApart r path) roots)
      ⊎ ((e : AddError) × (add_directory (directory path) roots ≡ (roots, some e))
          × ¬ All (λ r. IsApart r path) roots)
add_directory-IsApart path roots = by_check (check_added path roots) refl
  where
    by_check :
        (a : Added)
        → check_added path roots ≡ a
        → ((add_directory (directory path) roots ≡ (roots ++ path ∷ [], none))
            × All (λ r. IsApart r path) roots)
          ⊎ ((e : AddError) × (add_directory (directory path) roots ≡ (roots, some e))
              × ¬ All (λ r. IsApart r path) roots)
    by_check (accepted p) h = inl (
      unfold add_directory validated_add_dir in ground (arith, h, check_added-All path roots p),
      (check_added-All path roots p h).1,
    )
    by_check (rejected e) h = inr (
      e,
      unfold add_directory validated_add_dir in ground (arith, h),
      λ a. ground (arith, check_added-accepted path roots a, h),
    )

IsSeparate-append :
    (roots : List Text) (path : Text)
    → IsSeparate roots
    → All (λ r. IsApart r path) roots
    → IsSeparate (roots ++ path ∷ [])
IsSeparate-append [] path s a = (tt, tt)
IsSeparate-append (r ∷ rs) path (h, s) (g, a) =
    (All-append (IsApart r) rs (path ∷ []) h (g, tt), IsSeparate-append rs path s a)

validated_add_dir-All :
    (st : Stat) (roots : List Text) (p : Text)
    → validated_add_dir st roots ≡ accepted p
    → All (λ r. IsApart r p) roots
unfolding validated_add_dir
validated_add_dir-All no_absolute roots p h = absurd (cc)
validated_add_dir-All (no_stat path) roots p h = absurd (cc)
validated_add_dir-All (non_directory path) roots p h = absurd (cc)
validated_add_dir-All (directory path) roots p h =
    rw (check_added-All path roots p h).0 (check_added-All path roots p h).1

validated-cases :
    (a : Added) → ((p : Text) × (a ≡ accepted p)) ⊎ ((e : AddError) × (a ≡ rejected e))
validated-cases (accepted p) = inl (p, refl)
validated-cases (rejected e) = inr (e, refl)

pub new-IsSeparate :
    (sts : List Stat) (roots roots' : List Text)
    → IsSeparate roots
    → new sts roots ≡ some roots'
    → IsSeparate roots'
unfolding new
new-IsSeparate [] roots roots' s h = ground (arith, h, s)
new-IsSeparate (st ∷ sts) roots roots' s h = elim (validated-cases (validated_add_dir st roots)) [
  | inl (p, e) ↦
      new-IsSeparate sts (roots ++ p ∷ []) roots'
        (IsSeparate-append roots p s (validated_add_dir-All st roots p e)) (ground (arith, e, h))
  | inr (x, e) ↦ absurd (ground (arith, e, h))
]

-- Of two prefixes of a text one is a prefix of the other.
prefixes_meet :
    (a b s : Text)
    → has_prefix a s ≡ true
    → has_prefix b s ≡ true
    → (has_prefix a b ≡ true) ⊎ (has_prefix b a ≡ true)
unfolding has_prefix
prefixes_meet [] b s h k = inl refl
prefixes_meet (x ∷ a) [] s h k = inr refl
prefixes_meet (x ∷ a) (y ∷ b) [] h k = absurd (cc)
prefixes_meet (x ∷ a) (y ∷ b) (z ∷ s) h k = ground (arith, prefixes_meet a b s)

has_prefix-longer : (a s t : Text) → has_prefix a s ≡ true → has_prefix a (s ++ t) ≡ true
unfolding has_prefix
has_prefix-longer [] s t h = refl
has_prefix-longer (x ∷ a) [] t h = absurd (cc)
has_prefix-longer (x ∷ a) (y ∷ s) t h = ground (arith, has_prefix-longer a s t)

slashed_prefix :
    (r p : Text) → is_under r p ≡ true → has_prefix (r ++ codes "/") (p ++ codes "/") ≡ true
unfolding is_under
slashed_prefix r p h = elim (Bool-cases (text_beq p r)) [
  | inl e ↦ rw ((text_beq_iff p r).0 e) (has_prefix_refl (r ++ codes "/"))
  | inr e ↦ has_prefix-longer (r ++ codes "/") p (codes "/") (ground (arith, e, h))
]

apart-disjoint : (r q p : Text) → IsApart r q → is_under r p ≡ true → is_under q p ≡ true → ⊥
apart-disjoint r q p (n, a, b) h k =
    elim (prefixes_meet (r ++ codes "/") (q ++ codes "/") (p ++ codes "/") (slashed_prefix r p h)
      (slashed_prefix q p k)) [ inl e ↦ cc | inr e ↦ cc ]

separate_once :
    (roots : List Text) (r q p : Text)
    → IsSeparate roots
    → IsIn r roots
    → IsIn q roots
    → is_under r p ≡ true
    → is_under q p ≡ true
    → r ≡ q
separate_once [] r q p s i j h k = absurd i
separate_once (x ∷ xs) r q p (a, s) (inl e) (inl f) h k = e ∙ sym f
separate_once (x ∷ xs) r q p (a, s) (inl e) (inr j) h k =
    absurd (apart-disjoint x q p (All-IsIn (IsApart x) q xs a j) (rw (sym e) h) k)
separate_once (x ∷ xs) r q p (a, s) (inr i) (inl f) h k =
    absurd (apart-disjoint x r p (All-IsIn (IsApart x) r xs a i) (rw (sym f) k) h)
separate_once (x ∷ xs) r q p (a, s) (inr i) (inr j) h k = separate_once xs r q p s i j h k

-- Whatever the directories that a new watcher is given: if they are all accepted, no path lies at or under two of the
-- roots, by the test with which the watcher tells what lies under a directory.
pub new-is_under :
    (sts : List Stat) (roots : List Text) (r q p : Text)
    → new sts [] ≡ some roots
    → IsIn r roots
    → IsIn q roots
    → is_under r p ≡ true
    → is_under q p ≡ true
    → r ≡ q
new-is_under sts roots r q p h i j a b =
    separate_once roots r q p (new-IsSeparate sts [] roots tt h) i j a b

-- The root directory is accepted beside a directory that lies under it: with a slash added it has two, and is no
-- longer a prefix.
pub add_directory_root :
    (c : ℕ) (rest : Text)
    → c ≢ b'/'
    → add_directory (directory (codes "/")) ((b'/' ∷ c ∷ rest) ∷ [])
      ≡ ((b'/' ∷ c ∷ rest) ∷ codes "/" ∷ [], none)
unfolding add_directory validated_add_dir check_added has_prefix text_beq
add_directory_root c rest n = ground (arith, n)
