-- ===== src/Watcher.antt =====
-- pkg/fswatcher: the file system watcher of the library folders.
pub mod Event
pub mod Tree
pub mod Inotify
pub mod Roots
pub mod Goroutines
pub mod WatchMap
pub mod DelEvents
pub mod MvEvents
