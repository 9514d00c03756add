-- ===== src/Dlna.antt =====
-- dlna/content_directory_controller.go and server.go: the HTTP front of the media server.
pub mod Entries
pub mod Content
pub mod Routes
pub mod Urls
pub mod Examples
pub mod ContentDirectory
