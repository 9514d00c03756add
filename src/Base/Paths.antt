-- ===== src/Base/Paths.antt =====
-- Package path/filepath on slash-separated paths, and the tests of package strings that paths meet.
-- Directories are cut as they stand: `Clean` is the identity on the watcher's paths, which are clean.
use mathlib.Core.List.{append-nil}
use Prim.Native.Nat.{ℕ, ◌-◌}
use mathlib.Core.Path.{◌≡◌, refl, ap, sym, ◌∙◌}
use mathlib.Core.Logic.{inl, inr}
use mathlib.Core.Bool.{Bool, true, false, ◌&&◌, ◌||◌}
use mathlib.Core.List.{[], ◌∷◌, ◌++◌}
use native.Mathlib.Omega.{arith}
use godlna.Base.Tests.{nat_beq_iff, nat_beq, if◌then◌else◌, Bool-cases}
use godlna.Base.Lists.{length, take, length-append, take-append}
use godlna.Base.Strings.{Lacks, Text, codes, has_prefix, has_prefix-append, text_beq}

unfoldable pub has_byte : ℕ → Text → Bool
has_byte b [] = false
has_byte b (c ∷ s) = nat_beq b c || has_byte b s

-- `strings.Contains`
unfoldable pub contains_text : Text → Text → Bool
contains_text sub [] = text_beq sub []
contains_text sub (c ∷ s) = has_prefix sub (c ∷ s) || contains_text sub s

pub contains_text-append : (a sub b : Text) → contains_text sub (a ++ (sub ++ b)) ≡ true
contains_text-append [] [] [] = unfold contains_text text_beq in refl
contains_text-append [] [] (c ∷ b) = unfold contains_text has_prefix in refl
contains_text-append [] (c ∷ sub) b =
    unfold contains_text in ground (arith, has_prefix-append (c ∷ sub) b)
contains_text-append (c ∷ a) sub b = later (contains_text-append a sub b)
  where
    later :
        contains_text sub (a ++ (sub ++ b)) ≡ true
        → contains_text sub (c ∷ (a ++ (sub ++ b))) ≡ true
    later h = unfold contains_text in ground arith

-- `strings.HasSuffix`
unfoldable pub has_suffix : Text → Text → Bool
has_suffix suffix [] = text_beq suffix []
has_suffix suffix (c ∷ s) = text_beq suffix (c ∷ s) || has_suffix suffix s

strip_slashes : Text → Text
strip_slashes [] = []
strip_slashes (c ∷ s) =
    let rest = strip_slashes s in if nat_beq c b'/' && text_beq rest [] then [] else c ∷ rest

last_element : Text → Text
last_element [] = []
last_element (c ∷ s) =
    let rest = last_element s in
    if has_byte b'/' s then rest else if nat_beq c b'/' then s else c ∷ s

unfoldable pub base_name : Text → Text
unfolding strip_slashes last_element has_byte text_beq
base_name p =
    let t = strip_slashes p in
    if text_beq p [] then codes "." else if text_beq t [] then codes "/" else last_element t

unfoldable pub ext : Text → Text
unfolding has_byte
ext [] = []
ext (c ∷ s) =
    let rest = ext s in
    if has_byte b'/' s || has_byte b'.' s then rest else if nat_beq c b'.' then c ∷ s else []

before_last_slash : Text → Text
before_last_slash [] = []
before_last_slash (c ∷ s) =
    let rest = before_last_slash s in if has_byte b'/' s then c ∷ rest else []

unfoldable pub dir_name : Text → Text
unfolding before_last_slash has_byte text_beq
dir_name p =
    let d = before_last_slash p in
    if has_byte b'/' p then (if text_beq d [] then codes "/" else d) else codes "."

has_byte-of_slash : (a name : Text) → has_byte b'/' (a ++ b'/' ∷ name) ≡ true
unfolding has_byte
has_byte-of_slash [] name = refl
has_byte-of_slash (c ∷ a) name = ground (arith, has_byte-of_slash a name)

has_byte-of_plain : (name : Text) → Lacks b'/' name → has_byte b'/' name ≡ false
unfolding has_byte
has_byte-of_plain [] l = refl
has_byte-of_plain (c ∷ name) (h, l) =
    ground (arith, has_byte-of_plain name l, h, nat_beq_iff b'/' c)

before_last_slash-join :
    (a name : Text) → Lacks b'/' name → before_last_slash (a ++ b'/' ∷ name) ≡ a
unfolding before_last_slash
before_last_slash-join [] name l = ground (arith, has_byte-of_plain name l)
before_last_slash-join (c ∷ a) name l =
    ground (arith, has_byte-of_slash a name, before_last_slash-join a name l)

-- The directory of a name that is joined to a directory.
pub dir_name-join :
    (c : ℕ) (a name : Text) → Lacks b'/' name → dir_name (c ∷ (a ++ b'/' ∷ name)) ≡ c ∷ a
unfolding dir_name
dir_name-join c a name l =
    ground (arith, has_byte-of_slash (c ∷ a) name, before_last_slash-join (c ∷ a) name l)

-- The extension ends the text.
pub ext_suffix : (s : Text) → (p : Text) × (s ≡ p ++ ext s)
ext_suffix [] = unfold ext in ([], refl)
ext_suffix (c ∷ s) = more (ext_suffix s)
  where
    more : (p : Text) × (s ≡ p ++ ext s) → (p : Text) × (c ∷ s ≡ p ++ ext (c ∷ s))
    more (p, e) = elim (Bool-cases (has_byte b'/' s || has_byte b'.' s)) [
      | inl h ↦ (c ∷ p, unfold ext in rw h (ap (◌∷◌ c) e))
      | inr h ↦ elim (Bool-cases (nat_beq c b'.')) [
        | inl d ↦ ([], unfold ext in rw (h, d) refl)
        | inr d ↦ (c ∷ s, unfold ext in rw (h, d) (sym (append-nil (c ∷ s))))
      ]
    ]

-- Go's `s[0 : len(s)-len(ext)]`.
unfoldable pub without_ext : Text → Text
without_ext s = take (length s - length (ext s)) s

pub without_ext-append : (s : Text) → without_ext s ++ ext s ≡ s
unfolding without_ext
without_ext-append s = cut (ext_suffix s)
  where
    cut : (p : Text) × (s ≡ p ++ ext s) → take (length s - length (ext s)) s ++ ext s ≡ s
    cut (p, e) =
        let n : length s - length (ext s) ≡ length p =
          omega (arith, ap length e, length-append p (ext s)) in
        let t : take (length p) s ≡ p = ap (take (length p)) e ∙ take-append p (ext s) in
        rw (n, t) (sym e)

tests :
    (base_name (codes "/v/a.b/film.mkv") ≡ codes "film.mkv")
    × (ext (codes "/v/a.b/film") ≡ [])
    × (dir_name (codes "/v/a.b/film.mkv") ≡ codes "/v/a.b")
unfolding base_name ext dir_name
tests = (refl, refl, refl)
