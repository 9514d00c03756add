-- ===== src/Upnp/Ssdp/Validation.antt =====
-- `Validate` of pkg/upnp/ssdp/options.go: what valid options hold, and that validating them again changes nothing.
use godlna.Base.{
  Text, codes, text_beq, text_beq_iff, has_prefix, has_prefix-append, has_prefix_refl,
  has_prefix-eq_nil, [], ◌∷◌, ◌++◌, none, some, true, false, zero, suc, ℤ, pos, negsuc, ◌≡◌, ◌≢◌,
  ◌⊎◌, refl, sym, ap, ◌∙◌, arith, inl, inr, Bool-cases, quot, scale, wrap_int64,
}
use godlna.Upnp.Ssdp.{
  Options, Invalid, root_device, usn_from_target, or_text, or_time, with_uuid, filled, validate,
}

or_text_twice : (s d : Text) → or_text (or_text s d) d ≡ or_text s d
unfolding or_text
or_text_twice s d = ground arith

or_time_twice : (t d : ℤ) → or_time (or_time t d) d ≡ or_time t d
unfolding or_time
or_time_twice (pos zero) (pos zero) = refl
or_time_twice (pos zero) (pos (suc n)) = refl
or_time_twice (pos zero) (negsuc n) = refl
or_time_twice (pos (suc n)) d = refl
or_time_twice (negsuc n) d = refl

with_uuid-prefix : (udn : Text) → has_prefix (codes "uuid:") (with_uuid udn) ≡ true
unfolding with_uuid
with_uuid-prefix udn = elim (Bool-cases (has_prefix (codes "uuid:") udn)) [
  | inl e ↦ rw e e
  | inr e ↦ rw e (has_prefix-append (codes "uuid:") udn)
]

with_uuid_twice : (udn : Text) → with_uuid (with_uuid udn) ≡ with_uuid udn
with_uuid_twice udn = twice (with_uuid udn) (with_uuid-prefix udn)
  where
    twice : (u : Text) → has_prefix (codes "uuid:") u ≡ true → with_uuid u ≡ u
    twice u e = unfold with_uuid in rw e refl

with_uuid_named : (udn : Text) → text_beq (with_uuid udn) [] ≡ false
with_uuid_named udn = named (with_uuid udn) (with_uuid-prefix udn)
  where
    named : (u : Text) → has_prefix (codes "uuid:") u ≡ true → text_beq u [] ≡ false
    named [] e = let bad : codes "uuid:" ≡ [] = has_prefix-eq_nil (codes "uuid:") e in absurd (cc)
    named (c ∷ u) e = unfold text_beq in refl

filled_twice : (d : Text) (o : Options) → filled d (filled d o) ≡ filled d o
unfolding filled
filled_twice d o =
    let max_age = or_time o.max_age (pos 1800000000000) in
    rw
      (
        or_text_twice o.server_header d,
        or_time_twice o.max_age (pos 1800000000000),
        or_time_twice o.notify_interval (quot (wrap_int64 (scale max_age 2)) 5),
        with_uuid_twice o.device_udn,
      )
      refl

usn_prefix :
    (o : Options) (target : Text) → has_prefix o.device_udn (usn_from_target o target) ≡ true
unfolding usn_from_target
usn_prefix o target = elim (Bool-cases (text_beq o.device_udn target)) [
  | inl e ↦ rw (e, sym ((text_beq_iff o.device_udn target).0 e)) (has_prefix_refl o.device_udn)
  | inr e ↦ rw e (has_prefix-append o.device_udn (codes "::" ++ target))
]

validate-filled :
    (d : Text) (o : Options)
    → text_beq o.location [] ≡ false
    → text_beq o.device_type [] ≡ false
    → validate d (filled d o) ≡ (filled d o, none)
validate-filled d o a b =
    passes (filled d o) (unfold filled in a) (unfold filled in b)
      (unfold filled in with_uuid_named o.device_udn)
    ∙ ap (λ x. (x, none)) (filled_twice d o)
  where
    passes :
        (x : Options)
        → text_beq x.location [] ≡ false
        → text_beq x.device_type [] ≡ false
        → text_beq x.device_udn [] ≡ false
        → validate d x ≡ (filled d x, none)
    passes x a b c = unfold validate in rw (a, b, c) refl

-- Options with a location, a device type and a device name are valid, and others are not and stay as they are. Valid
-- options have a name that starts with uuid:, which starts every USN, and targets that are the name, the root device,
-- the device type and the services; and to validate them again changes nothing.
pub validate_exact :
    (d : Text) (o : Options)
    → let o' = (validate d o).0 in
      (((validate d o).1 ≡ none)
        × (o.location ≢ [])
        × (o.device_type ≢ [])
        × (o.device_udn ≢ [])
        × (validate d o' ≡ (o', none))
        × (has_prefix (codes "uuid:") o'.device_udn ≡ true)
        × (o'.targets ≡ o'.device_udn ∷ root_device ∷ o.device_type ∷ o.service_list)
        × ((target : Text) → has_prefix o'.device_udn (usn_from_target o' target) ≡ true))
      ⊎ ((e : Invalid) × (validate d o ≡ (o, some e))
          × ((o.location ≡ []) ⊎ (o.device_type ≡ []) ⊎ (o.device_udn ≡ [])))
unfolding validate
validate_exact d o = elim (Bool-cases (text_beq o.location [])) [
  | inl a ↦ rw a (inr (_, refl, inl ((text_beq_iff o.location []).0 a)))
  | inr a ↦ elim (Bool-cases (text_beq o.device_type [])) [
    | inl b ↦ rw (a, b) (inr (_, refl, inr (inl ((text_beq_iff o.device_type []).0 b))))
    | inr b ↦ elim (Bool-cases (text_beq o.device_udn [])) [
      | inl c ↦ rw (a, b, c) (inr (_, refl, inr (inr ((text_beq_iff o.device_udn []).0 c))))
      | inr c ↦
          rw (a, b, c)
            (inl (
              refl,
              (λ e. ground (arith, a, text_beq_iff o.location [], e)),
              (λ e. ground (arith, b, text_beq_iff o.device_type [], e)),
              (λ e. ground (arith, c, text_beq_iff o.device_udn [], e)),
              validate-filled d o a b,
              unfold filled in with_uuid-prefix o.device_udn,
              unfold filled in refl,
              λ target. usn_prefix (filled d o) target,
            ))
    ]
  ]
]
