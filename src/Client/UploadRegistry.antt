-- ===== src/Client/UploadRegistry.antt =====
-- src/client/upload_registry.cpp: the paths of the files that a client shares. The mutex makes
-- each method one step.
use peer_to_peer_file_sharin.Prelude.{Bool, Option}
use peer_to_peer_file_sharin.Bytes.{Bytes}
use peer_to_peer_file_sharin.Container.Map.{Map, find, assign, erase, contains}

abbrev pub UploadRegistry : Type 0
UploadRegistry = Map Bytes

unfoldable pub add : Bytes → Bytes → UploadRegistry → UploadRegistry
add filename path files = assign filename path files

unfoldable pub remove : Bytes → UploadRegistry → UploadRegistry
remove filename files = erase filename files

unfoldable pub path_for : Bytes → UploadRegistry → Option Bytes
path_for filename files = find filename files

unfoldable pub is_shared : Bytes → UploadRegistry → Bool
is_shared filename files = contains filename files
