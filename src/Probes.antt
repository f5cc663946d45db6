-- ===== src/Probes.antt =====
-- The regression probes among the applets: applets/FileSetFolderProbe and applets/FileGetFileInfoProbe.
pub mod Folder
pub mod FileInfo
pub mod Screen
pub mod RunKey
