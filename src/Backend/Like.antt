-- ===== src/Backend/Like.antt =====
-- The `path LIKE … AND path NOT LIKE …` condition by which dlna/backend/db_driver_postgres.go selects
-- the children of a folder. `like` is SQL's pattern match: `%` stands for any text, `_` for one byte, where the
-- database takes one character, and a backslash takes the next byte as it is.
use mathlib.Core.List.{append_assoc}
use godlna.Base.{
  ℕ, Text, codes, [], ◌∷◌, ◌++◌, Bool, true, false, ◌&&◌, ◌||◌, not, if◌then◌else◌, ◌≡◌, ◌≢◌, ◌↔◌,
  refl, sym, ap, ◌∙◌, arith, nat_beq, nat_beq_iff, has_byte, has_prefix, has_prefix-append,
  append-drop_of_prefix, drop-append, length, drop, append_cancel, All, Lacks,
}

any_suffix : (Text → Bool) → Text → Bool
any_suffix f [] = f []
any_suffix f (c ∷ s) = f (c ∷ s) || any_suffix f s

one : (Text → Bool) → (ℕ → Bool) → Text → Bool
one f fits [] = false
one f fits (c ∷ s) = fits c && f s

is_nil : Text → Bool
is_nil [] = true
is_nil (c ∷ s) = false

-- The first argument says that a backslash has just been read.
like_from : Bool → Text → Text → Bool
like_from false [] s = is_nil s
like_from true [] s = false
like_from true (p ∷ ps) s = one (λ t. like_from false ps t) (nat_beq p) s
like_from false (p ∷ ps) s =
    if nat_beq p b'%'
    then any_suffix (λ t. like_from false ps t) s
    else if nat_beq p b'_'
    then one (λ t. like_from false ps t) (λ c. true) s
    else if nat_beq p b'\\'
    then like_from true ps s
    else one (λ t. like_from false ps t) (nat_beq p) s

-- The pattern stands first.
unfoldable pub like : Text → Text → Bool
unfolding like_from any_suffix one is_nil
like pattern s = like_from false pattern s

-- The two conditions that a filter's ParentPath adds.
unfoldable pub under_parent : Text → Text → Bool
unfolding like
under_parent parent p = like (parent ++ codes "/%") p && not (like (parent ++ codes "/%/%") p)

-- The specification: one more element below the parent.
abbrev pub IsChild : Text → Text → Type 0
IsChild parent p = (name : Text) × (p ≡ parent ++ b'/' ∷ name) × Lacks b'/' name

abbrev pub IsPlain : Text → Type 0
IsPlain = All (λ c. (c ≢ b'%') × (c ≢ b'_') × (c ≢ b'\\'))

like-append :
    (a pattern s : Text)
    → IsPlain a
    → like_from false (a ++ pattern) s
      ≡ (has_prefix a s && like_from false pattern (drop (length a) s))
unfolding like_from has_prefix one
like-append [] pattern s h = refl
like-append (c ∷ a) pattern [] ((n1, n2, n3), h) = ground arith
like-append (c ∷ a) pattern (d ∷ s) ((n1, n2, n3), h) = ground (arith, like-append a pattern s h)

any_suffix_all : (s : Text) → any_suffix is_nil s ≡ true
unfolding any_suffix is_nil
any_suffix_all [] = refl
any_suffix_all (c ∷ s) = any_suffix_all s

below_slash : (s : Text) → like_from false (codes "/%") s ≡ has_prefix (codes "/") s
unfolding like_from has_prefix one
below_slash [] = refl
below_slash (c ∷ s) = ground (arith, any_suffix_all s)

any_suffix_slash : (s : Text) → any_suffix (λ t. like_from false (codes "/%") t) s ≡ has_byte b'/' s
unfolding any_suffix has_byte has_prefix
any_suffix_slash [] = unfold like_from one in refl
any_suffix_slash (c ∷ s) = ground (arith, below_slash (c ∷ s), any_suffix_slash s)

below_two : (s : Text) → like_from false (codes "/%/%") (b'/' ∷ s) ≡ has_byte b'/' s
unfolding like_from one
below_two s = any_suffix_slash s

Lacks-of_has_byte : (b : ℕ) (s : Text) → has_byte b s ≡ false → Lacks b s
unfolding has_byte
Lacks-of_has_byte b [] h = tt
Lacks-of_has_byte b (c ∷ s) h =
    (ground (arith, nat_beq_iff b c), Lacks-of_has_byte b s (ground arith))

has_byte-of_Lacks : (b : ℕ) (s : Text) → Lacks b s → has_byte b s ≡ false
unfolding has_byte
has_byte-of_Lacks b [] h = refl
has_byte-of_Lacks b (c ∷ s) (n, h) = ground (arith, nat_beq_iff b c, has_byte-of_Lacks b s h)

-- On a path that begins with a plain parent, the condition reads the rest of it.
under_parent-append :
    (parent rest : Text)
    → IsPlain parent
    → under_parent parent (parent ++ rest)
      ≡ (has_prefix (codes "/") rest && not (like_from false (codes "/%/%") rest))
unfolding under_parent
under_parent-append parent rest h =
    rw
      (
        like-append parent (codes "/%") (parent ++ rest) h,
        like-append parent (codes "/%/%") (parent ++ rest) h,
        has_prefix-append parent rest,
        drop-append parent rest,
        below_slash rest,
      )
      refl

under_parent-has_prefix :
    (parent p : Text) → IsPlain parent → under_parent parent p ≡ true → has_prefix parent p ≡ true
unfolding under_parent
under_parent-has_prefix parent p h e = ground (arith, like-append parent (codes "/%") p h)

slash_rest :
    (rest : Text)
    → (has_prefix (codes "/") rest && not (like_from false (codes "/%/%") rest)) ≡ true
    → (name : Text) × (rest ≡ b'/' ∷ name) × Lacks b'/' name
unfolding has_prefix
slash_rest [] e = cc
slash_rest (c ∷ s) e =
    let head : c ≡ b'/' = ground (arith, nat_beq_iff b'/' c) in
    let two : like_from false (codes "/%/%") (c ∷ s) ≡ false = ground arith in
    (s, ap (λ x. x ∷ s) head, Lacks-of_has_byte b'/' s (sym (below_two s) ∙ rw head at two))

-- For a folder whose path holds no percent sign, underscore or backslash, the condition selects exactly the paths
-- one element below it.
pub under_parent_iff :
    (parent p : Text) → IsPlain parent → (under_parent parent p ≡ true) ↔ IsChild parent p
under_parent_iff parent p h = (sound, complete)
  where
    sound : under_parent parent p ≡ true → IsChild parent p
    sound e =
        let rest = drop (length parent) p in
        let whole : parent ++ rest ≡ p =
          append-drop_of_prefix parent p (under_parent-has_prefix parent p h e) in
        let (name, f, l) =
          slash_rest rest
            (sym (under_parent-append parent rest h) ∙ ap (under_parent parent) whole ∙ e) in
        (name, sym whole ∙ ap (◌++◌ parent) f, l)

    complete : IsChild parent p → under_parent parent p ≡ true
    complete (name, f, l) =
        rw
          (
            f,
            under_parent-append parent (b'/' ∷ name) h,
            below_two name,
            has_byte-of_Lacks b'/' name l,
          )
          (unfold has_prefix in refl)

like_underscore :
    (a b q r : Text) (c : ℕ)
    → IsPlain a
    → IsPlain b
    → like_from false ((a ++ b'_' ∷ b) ++ q) (a ++ c ∷ (b ++ r)) ≡ like_from false q r
like_underscore a b q r c ha hb =
    let skip : like_from false (b'_' ∷ (b ++ q)) (c ∷ (b ++ r))
        ≡ like_from false (b ++ q) (b ++ r) =
      unfold like_from one in refl in
    rw
      (
        append_assoc a (b'_' ∷ b) q,
        like-append a (b'_' ∷ (b ++ q)) (a ++ c ∷ (b ++ r)) ha,
        has_prefix-append a (c ∷ (b ++ r)),
        drop-append a (c ∷ (b ++ r)),
        skip,
        like-append b q (b ++ r) hb,
        has_prefix-append b r,
        drop-append b r,
      )
      refl

under_parent_underscore :
    (a b name : Text) (c : ℕ)
    → IsPlain a
    → IsPlain b
    → Lacks b'/' name
    → under_parent (a ++ b'_' ∷ b) (a ++ c ∷ (b ++ b'/' ∷ name)) ≡ true
under_parent_underscore a b name c ha hb l =
    unfold under_parent in
    rw
      (
        like_underscore a b (codes "/%") (b'/' ∷ name) c ha hb,
        like_underscore a b (codes "/%/%") (b'/' ∷ name) c ha hb,
        below_slash (b'/' ∷ name),
        below_two name,
        has_byte-of_Lacks b'/' name l,
      )
      (unfold has_prefix in refl)

-- A folder with an underscore in its name also gets the children of every folder whose name differs from it in
-- that one place, which are not its children.
pub under_parent_wildcard :
    (a b name : Text) (c : ℕ)
    → IsPlain a
    → IsPlain b
    → Lacks b'/' name
    → c ≢ b'_'
    → (under_parent (a ++ b'_' ∷ b) (a ++ c ∷ (b ++ b'/' ∷ name)) ≡ true)
      × ¬ IsChild (a ++ b'_' ∷ b) (a ++ c ∷ (b ++ b'/' ∷ name))
under_parent_wildcard a b name c ha hb l other =
    (under_parent_underscore a b name c ha hb l, stranger)
  where
    stranger : ¬ IsChild (a ++ b'_' ∷ b) (a ++ c ∷ (b ++ b'/' ∷ name))
    stranger (t, e, _) =
        let f : c ∷ (b ++ b'/' ∷ name) ≡ b'_' ∷ (b ++ b'/' ∷ t) =
          append_cancel a (e ∙ append_assoc a (b'_' ∷ b) (b'/' ∷ t)) in
        other (cc)
