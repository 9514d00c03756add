-- ===== src/Backend/Caches/Laws.antt =====
-- What the cache files rely on of the disk.
use godlna.Base.{Text, true, false, ◌≡◌, ◌≢◌, ℤ}
use godlna.Backend.Caches.{Disk, no_file, content, not_exist, found}

-- A written file holds what was written; a missing file cannot be read; and neither a write to another file nor a new
-- directory changes the size or the time of a file that is no directory.
pub record IsDisk {F : Type 0} (disk : Disk F) : Type 0 where
  pub read_written :
      (f : F) (file body : Text)
      → (disk.write_file f file body).1 ≡ true
      → disk.read_file (disk.write_file f file body).0 file ≡ content body
  pub read_missing :
      (f : F) (file : Text) → disk.stat f file ≡ not_exist → disk.read_file f file ≡ no_file
  pub stat_written :
      (f : F) (file other body : Text) (size time : ℤ)
      → file ≢ other
      → disk.stat f other ≡ found false size time
      → disk.stat (disk.write_file f file body).0 other ≡ found false size time
  pub stat_made :
      (f : F) (dir other : Text) (size time : ℤ)
      → disk.stat f other ≡ found false size time
      → disk.stat (disk.mkdir_all f dir).0 other ≡ found false size time
