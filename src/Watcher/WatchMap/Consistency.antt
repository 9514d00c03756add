-- ===== src/Watcher/WatchMap/Consistency.antt =====
-- The invariant of driver_inotify_watch_map.go: the two maps are inverse to each other.
use godlna.Base.{
  ℕ, Text, text_beq_iff, nat_beq_iff, lookup, insert, erase, lookup-insert, lookup-erase, Distinct,
  text_eq, nat_eq, insert-Distinct, erase-Distinct, none, some, ◌≡◌, ◌⊎◌, inl, inr, arith,
  Option-cases,
}
use godlna.Watcher.WatchMap.{WatchMap, add, rm_by_path, reset}

pub record IsConsistent (w : WatchMap) : Type 0 where
  pub distinct : Distinct w.path_by_wd
  pub to_path :
      (wd : ℕ) (p : Text) → lookup wd w.path_by_wd ≡ some p → lookup p w.wd_by_path ≡ some wd
  pub to_wd :
      (p : Text) (wd : ℕ) → lookup p w.wd_by_path ≡ some wd → lookup wd w.path_by_wd ≡ some p

-- The pair is new to both maps, or is there already: the kernel hands out one descriptor for one directory.
abbrev pub IsFree : WatchMap → ℕ → Text → Type 0
IsFree w wd p =
    ((lookup wd w.path_by_wd ≡ none) × (lookup p w.wd_by_path ≡ none))
    ⊎ (lookup wd w.path_by_wd ≡ some p)

module _ {w : WatchMap} (c : IsConsistent w) where
  pub add-IsConsistent : (wd : ℕ) (p : Text) → IsFree w wd p → IsConsistent (add w wd p)
  unfolding add
  add-IsConsistent wd p free = record {
    distinct = insert-Distinct wd p w.path_by_wd c.distinct;
    to_path = λ wd' p' h. ground (
      arith,
      lookup-insert wd wd' p w.path_by_wd,
      lookup-insert p p' wd w.wd_by_path,
      nat_beq_iff wd wd',
      text_beq_iff p p',
      c.to_path wd' p',
      c.to_path wd p,
      c.to_wd p wd,
    );
    to_wd = λ p' wd' h. ground (
      arith,
      lookup-insert wd wd' p w.path_by_wd,
      lookup-insert p p' wd w.wd_by_path,
      nat_beq_iff wd wd',
      text_beq_iff p p',
      c.to_wd p' wd',
      c.to_wd p wd,
      c.to_path wd p,
    );
  }

  -- Dropping a pair from both maps.
  pub drop-IsConsistent :
      (wd : ℕ) (p : Text)
      → lookup wd w.path_by_wd ≡ some p
      → IsConsistent
          (record w { path_by_wd = erase wd w.path_by_wd; wd_by_path = erase p w.wd_by_path })
  drop-IsConsistent wd p e = record {
    distinct = erase-Distinct wd w.path_by_wd c.distinct;
    to_path = λ wd' p' h. ground (
      arith,
      lookup-erase wd wd' w.path_by_wd,
      lookup-erase p p' w.wd_by_path,
      nat_beq_iff wd wd',
      text_beq_iff p p',
      c.to_path wd' p',
      c.to_path wd p,
    );
    to_wd = λ p' wd' h. ground (
      arith,
      lookup-erase wd wd' w.path_by_wd,
      lookup-erase p p' w.wd_by_path,
      nat_beq_iff wd wd',
      text_beq_iff p p',
      c.to_wd p' wd',
      c.to_path wd p,
    );
  }

  -- Giving a watched descriptor another path, which no descriptor has.
  pub move-IsConsistent :
      (wd : ℕ) (p to : Text)
      → lookup wd w.path_by_wd ≡ some p
      → lookup to w.wd_by_path ≡ none
      → IsConsistent (record w {
        path_by_wd = insert wd to w.path_by_wd;
        wd_by_path = insert to wd (erase p w.wd_by_path);
      })
  move-IsConsistent wd p to e free = record {
    distinct = insert-Distinct wd to w.path_by_wd c.distinct;
    to_path = λ wd' p' h. ground (
      arith,
      lookup-insert wd wd' to w.path_by_wd,
      lookup-insert to p' wd (erase p w.wd_by_path),
      lookup-erase p p' w.wd_by_path,
      nat_beq_iff wd wd',
      text_beq_iff to p',
      text_beq_iff p p',
      c.to_path wd' p',
      c.to_path wd p,
    );
    to_wd = λ p' wd' h. ground (
      arith,
      lookup-insert wd wd' to w.path_by_wd,
      lookup-insert to p' wd (erase p w.wd_by_path),
      lookup-erase p p' w.wd_by_path,
      nat_beq_iff wd wd',
      text_beq_iff to p',
      text_beq_iff p p',
      c.to_wd p' wd',
      c.to_path wd p,
    );
  }

  pub rm_by_path-IsConsistent : (p : Text) → IsConsistent (rm_by_path w p)
  rm_by_path-IsConsistent p = elim (Option-cases (lookup p w.wd_by_path)) [
    | inl e ↦ unfold rm_by_path in rw (e, rm_by_path) c
    | inr (wd, e) ↦
        unfold rm_by_path in rw (e, rm_by_path) (drop-IsConsistent wd p (c.to_wd p wd e))
  ]

pub reset-IsConsistent : (w : WatchMap) → IsConsistent (reset w)
unfolding reset lookup
reset-IsConsistent w = record { distinct = tt; to_path = λ wd p h. cc; to_wd = λ p wd h. cc }
