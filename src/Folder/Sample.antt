-- ===== src/Folder/Sample.antt =====
-- The settings of a drive for tests: the directory `/s`, read-only.
use net_mount.Base.{[], ◌∷◌, true, none}
use net_mount.Os.{auto}
use net_mount.Folder.{Share, ram}

abbrev pub share : Share
share = record {
  used = true;
  root = (b'/' ∷ []) ∷ (b's' ∷ []) ∷ [];
  read_only = true;
  use_client_timestamp = true;
  volume_label = none;
  attrs_mode = auto;
  name_conversion = ram;
}
