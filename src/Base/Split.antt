-- ===== src/Base/Split.antt =====
-- `strings.Split` and `strings.Trim`.
use mathlib.Core.List.{append-nil}
use Prim.Native.Nat.{ℕ, zero, suc, ◌-◌}
use mathlib.Core.Path.{◌≡◌, refl, ap, sym, ◌∙◌}
use mathlib.Core.Logic.{◌≢◌}
use mathlib.Core.Bool.{Bool, true, false, ◌&&◌}
use mathlib.Core.List.{List, [], ◌∷◌, ◌++◌}
use native.Mathlib.Omega.{arith}
use godlna.Base.Tests.{nat_beq_iff, if◌then◌else◌}
use godlna.Base.Lists.{length, All}
use godlna.Base.Strings.{Text, has_prefix, has_prefix-append, text_beq, Lacks}

-- The first piece and the others. The number counts the bytes of a separator still to be passed over.
split_from : Text → ℕ → Text → Text × List Text
split_from sep skip [] = ([], [])
split_from sep (suc skip) (c ∷ s) = split_from sep skip s
split_from sep zero (c ∷ s) = elim (has_prefix sep (c ∷ s)) [
  | true ↦ let (p, ps) = split_from sep (length sep - 1) s in ([], p ∷ ps)
  | false ↦ let (p, ps) = split_from sep 0 s in (c ∷ p, ps)
]

-- For a separator that is not empty.
unfoldable pub split : Text → Text → List Text
unfolding split_from has_prefix
split s sep = let (p, ps) = split_from sep 0 s in p ∷ ps

split_from_skip :
    (sep t rest : Text) → split_from sep (length t) (t ++ rest) ≡ split_from sep 0 rest
unfolding split_from
split_from_skip sep [] rest = refl
split_from_skip sep (c ∷ t) [] = split_from_skip sep t []
split_from_skip sep (c ∷ t) (d ∷ rest) = split_from_skip sep t (d ∷ rest)

split_from_sep :
    (h : ℕ) (t rest : Text)
    → split_from (h ∷ t) 0 ((h ∷ t) ++ rest)
      ≡ ([], (split_from (h ∷ t) 0 rest).0 ∷ (split_from (h ∷ t) 0 rest).1)
unfolding split_from
split_from_sep h t rest =
    ground (arith, has_prefix-append (h ∷ t) rest, split_from_skip (h ∷ t) t rest)

split_from_miss :
    (h c : ℕ) (t s : Text)
    → c ≢ h
    → split_from (h ∷ t) 0 (c ∷ s) ≡ (c ∷ (split_from (h ∷ t) 0 s).0, (split_from (h ∷ t) 0 s).1)
unfolding split_from has_prefix
split_from_miss h c t s n = ground (arith, nat_beq_iff h c)

split_from-append :
    (h : ℕ) (t a rest : Text)
    → Lacks h a
    → split_from (h ∷ t) 0 (a ++ rest)
      ≡ (a ++ (split_from (h ∷ t) 0 rest).0, (split_from (h ∷ t) 0 rest).1)
split_from-append h t [] rest _ = refl
split_from-append h t (c ∷ a) rest (n, l) =
    rw (split_from_miss h c t (a ++ rest) n, split_from-append h t a rest l)

-- Text without the separator's first byte, followed by the separator, is the first piece.
pub split-cons :
    (h : ℕ) (t a rest : Text)
    → Lacks h a
    → split (a ++ ((h ∷ t) ++ rest)) (h ∷ t) ≡ a ∷ split rest (h ∷ t)
unfolding split
split-cons h t a rest l =
    rw (split_from-append h t a ((h ∷ t) ++ rest) l, split_from_sep h t rest) (rw append-nil)

pub split_one : (h : ℕ) (t a : Text) → Lacks h a → split a (h ∷ t) ≡ a ∷ []
split_one h t a l =
    ap (λ s. split s (h ∷ t)) (sym (append-nil a))
    ∙ unfold split in rw (split_from-append h t a [] l) (unfold split_from in rw append-nil)

-- Joining by one byte.
abbrev pub join_byte : ℕ → List Text → Text
join_byte b [] = []
join_byte b (p ∷ []) = p
join_byte b (p ∷ q ∷ ps) = p ++ b ∷ join_byte b (q ∷ ps)

join-split_from :
    (b : ℕ) (s : Text) → join_byte b ((split_from (b ∷ []) 0 s).0 ∷ (split_from (b ∷ []) 0 s).1) ≡ s
unfolding split_from has_prefix
join-split_from b [] = refl
join-split_from b (c ∷ s) = ground (arith, join-split_from b s, nat_beq_iff b c)

pub join-split : (b : ℕ) (s : Text) → join_byte b (split s (b ∷ [])) ≡ s
unfolding split
join-split b s = join-split_from b s

split_from-Lacks :
    (b : ℕ) (s : Text) → All (Lacks b) ((split_from (b ∷ []) 0 s).0 ∷ (split_from (b ∷ []) 0 s).1)
unfolding split_from has_prefix
split_from-Lacks b [] = (tt, tt)
split_from-Lacks b (c ∷ s) = ground (arith, split_from-Lacks b s, nat_beq_iff b c)

pub split-Lacks : (b : ℕ) (s : Text) → All (Lacks b) (split s (b ∷ []))
unfolding split
split-Lacks b s = split_from-Lacks b s

trim_left : (ℕ → Bool) → Text → Text
trim_left cut [] = []
trim_left cut (c ∷ s) = let rest = trim_left cut s in if cut c then rest else c ∷ s

trim_right : (ℕ → Bool) → Text → Text
trim_right cut [] = []
trim_right cut (c ∷ s) =
    let rest = trim_right cut s in if cut c && text_beq rest [] then [] else c ∷ rest

-- `strings.Trim`; the test says which bytes are cut off at both ends.
unfoldable pub trim : (ℕ → Bool) → Text → Text
unfolding trim_left trim_right text_beq
trim cut s = trim_right cut (trim_left cut s)

trim_left_plain : (cut : ℕ → Bool) (s : Text) → All (λ c. cut c ≡ false) s → trim_left cut s ≡ s
unfolding trim_left
trim_left_plain cut [] a = refl
trim_left_plain cut (c ∷ s) (h, a) = rw h refl

trim_right_plain : (cut : ℕ → Bool) (s : Text) → All (λ c. cut c ≡ false) s → trim_right cut s ≡ s
unfolding trim_right
trim_right_plain cut [] a = refl
trim_right_plain cut (c ∷ s) (h, a) = rw (h, trim_right_plain cut s a) refl

pub trim_plain : (cut : ℕ → Bool) (s : Text) → All (λ c. cut c ≡ false) s → trim cut s ≡ s
unfolding trim
trim_plain cut s a = rw (trim_left_plain cut s a) (trim_right_plain cut s a)

-- A text without the bytes to be cut, after one of them.
pub trim-cons :
    (cut : ℕ → Bool) (c : ℕ) (s : Text)
    → cut c ≡ true
    → All (λ d. cut d ≡ false) s
    → trim cut (c ∷ s) ≡ s
unfolding trim trim_left
trim-cons cut c s h a = rw (h, trim_left_plain cut s a) (trim_right_plain cut s a)
