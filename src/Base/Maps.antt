-- ===== src/Base/Maps.antt =====
-- Go maps as association lists. The list order stands for the order of a `range` loop, which Go
-- leaves open; theorems hold for every list, so for every such order.
use Prim.Native.Nat.{ℕ}
use mathlib.Core.Path.{◌≡◌, refl, sym}
use mathlib.Core.Logic.{◌↔◌, inl, inr}
use mathlib.Core.Bool.{Bool, true, false}
use mathlib.Core.List.{List, [], ◌∷◌}
use mathlib.Core.Option.{Option, none, some}
use native.Mathlib.Omega.{arith}
use godlna.Base.Tests.{nat_beq, nat_beq_iff, if◌then◌else◌, Bool-cases}
use godlna.Base.Strings.{Text, text_beq, text_beq_iff}
use godlna.Base.Lists.{All, All-zip}

-- What a map needs of its keys: a test that tells them apart.
pub record Key {ℓ} (K : Type ℓ) : Type ℓ where
  pub same : K → K → Bool
  pub same_iff : (j k : K) → (same j k ≡ true) ↔ (j ≡ k)

instance abbrev pub nat_eq : Key ℕ
nat_eq = record { same_iff = nat_beq_iff; same = nat_beq }

instance abbrev pub text_eq : Key Text
text_eq = record { same_iff = text_beq_iff; same = text_beq }

infix 50 ◌==◌
abbrev pub ◌==◌ {ℓ} : {K : Type ℓ} ⦃key : Key K⦄ → K → K → Bool
◌==◌ ⦃key⦄ = key.same

module _ {ℓ κ} {K : Type ℓ} ⦃key : Key K⦄ {V : Type κ} where
  unfoldable pub lookup : K → List (K × V) → Option V
  lookup k [] = none
  lookup k ((j, v) ∷ m) = if j == k then some v else lookup k m

  unfoldable pub insert : K → V → List (K × V) → List (K × V)
  insert name v [] = (name, v) ∷ []
  insert name v ((j, old) ∷ rest) =
      let kept = (j, old) ∷ insert name v rest in if j == name then (name, v) ∷ rest else kept

  unfoldable pub erase : K → List (K × V) → List (K × V)
  erase k [] = []
  erase k ((j, w) ∷ m) = if j == k then erase k m else (j, w) ∷ erase k m

  pub lookup-insert :
      (new sought : K) (v : V) (es : List (K × V))
      → lookup sought (insert new v es) ≡ (if new == sought then some v else lookup sought es)
  unfolding insert lookup
  lookup-insert new sought v [] = refl
  lookup-insert new sought v ((held, old) ∷ es) = ground (
    arith,
    lookup-insert new sought v es,
    key.same_iff new sought,
    key.same_iff held new,
    key.same_iff held sought,
  )

  pub lookup-erase :
      (k j : K) (m : List (K × V)) → lookup j (erase k m) ≡ (if k == j then none else lookup j m)
  unfolding lookup erase
  lookup-erase k j [] = ground arith
  lookup-erase k j ((i, w) ∷ m) =
      ground (arith, key.same_iff k j, key.same_iff i k, key.same_iff i j, lookup-erase k j m)

  -- Each key stands once.
  abbrev pub Distinct : List (K × V) → Type κ
  Distinct [] = Unit
  Distinct ((k, v) ∷ m) = (lookup k m ≡ none) × Distinct m

  pub insert-Distinct : (k : K) (v : V) (m : List (K × V)) → Distinct m → Distinct (insert k v m)
  unfolding insert lookup
  insert-Distinct k v [] d = (refl, tt)
  insert-Distinct k v ((i, w) ∷ m) (f, d) =
      ground
        (arith, key.same_iff i k, key.same_iff k i, lookup-insert k i v m, insert-Distinct k v m d)

  pub erase-Distinct : (k : K) (m : List (K × V)) → Distinct m → Distinct (erase k m)
  unfolding erase
  erase-Distinct k [] d = tt
  erase-Distinct k ((i, w) ∷ m) (f, d) = ground (arith, lookup-erase k i m, erase-Distinct k m d)

  -- Where a key is missing, no entry has it.
  pub fresh-All : (k : K) (m : List (K × V)) → lookup k m ≡ none → All (λ x. (x.0 == k) ≡ false) m
  unfolding lookup
  fresh-All k [] h = tt
  fresh-All k ((i, w) ∷ m) h = (ground arith, fresh-All k m (ground arith))

  -- In a map every entry is found under its key.
  pub lookup-All : (m : List (K × V)) → Distinct m → All (λ x. lookup x.0 m ≡ some x.1) m
  unfolding lookup
  lookup-All [] d = tt
  lookup-All ((k, v) ∷ m) (f, d) = (
    ground (arith, key.same_iff k k),
    All-zip m (λ x h g. ground (arith, key.same_iff k x.0, key.same_iff x.0 k)) (lookup-All m d)
        (fresh-All k m f),
  )

module _ {ℓ κ ι} {K : Type ℓ} ⦃key : Key K⦄ {V : Type κ} (Q : K × V → Type ι) where
  pub All-insert : (k : K) (v : V) (m : List (K × V)) → Q (k, v) → All Q m → All Q (insert k v m)
  unfolding insert
  All-insert k v [] h a = (h, tt)
  All-insert k v ((j, w) ∷ m) h (g, a) = ground (arith, All-insert k v m h a)

  pub All-erase : (k : K) (m : List (K × V)) → All Q m → All Q (erase k m)
  unfolding erase
  All-erase k [] a = tt
  All-erase k ((j, w) ∷ m) (g, a) = ground (arith, All-erase k m a)

  pub All-lookup : (k : K) (v : V) (m : List (K × V)) → All Q m → lookup k m ≡ some v → Q (k, v)
  unfolding lookup
  All-lookup k v [] a h = absurd (cc)
  All-lookup k v ((j, w) ∷ m) (g, a) h = elim (Bool-cases (j == k)) [
    | inl b ↦ rw (sym ((key.same_iff j k).0 b), sym (found b)) g
    | inr b ↦ All-lookup k v m a (ground arith)
  ]
    where
      found : (j == k) ≡ true → w ≡ v
      found b = ground arith
