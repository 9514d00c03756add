-- ===== src/Media.antt =====
-- pkg/ffmpeg, pkg/ffprobe and pkg/imaging: times, thumbnails and their progress bars.
pub mod Duration
pub mod Probe
pub mod ProgressBar
pub mod Thumbnail
pub mod Examples
