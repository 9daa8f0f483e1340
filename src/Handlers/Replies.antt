-- ===== src/Handlers/Replies.antt =====
-- shared/drvproto.h, the packed structures of the replies, and what
-- netmount-server/netmount-server.cpp stores in them. A value that is too wide for its field loses
-- its upper bits.
use net_mount.Base.{ℕ, ◌/◌, ◌%◌, ◌^◌, List, [], ◌∷◌, ◌++◌, take}
use net_mount.Bytes.{Endian, u16, u32, store16, store32, to_little16, to_little32}
use net_mount.Fcb.{FcbFileName, base_size, ext_size}
use net_mount.Drive.{DosFileProperties}
use net_mount.DiskInfo.{DiskInfo}

unfoldable pub le16 : Endian → ℕ → List ℕ
le16 e v = store16 e (to_little16 e (u16 v))

unfoldable pub le32 : Endian → ℕ → List ℕ
le32 e v = store32 e (to_little32 e (u32 v))

unfoldable pub byte : ℕ → List ℕ
byte v = v % 2 ^ 8 ∷ []

-- The two arrays of a name, which have these sizes.
unfoldable pub name_bytes : FcbFileName → List ℕ
name_bytes f = take base_size f.name_blank_padded ++ take ext_size f.ext_blank_padded

unfoldable pub bytes_of_disk_info : Endian → DiskInfo → List ℕ
bytes_of_disk_info e d =
    le16 e d.total_clusters ++ (le16 e d.bytes_per_sector ++ le16 e d.available_clusters)

unfoldable pub bytes_of_disk_info_large : Endian → DiskInfo → List ℕ
bytes_of_disk_info_large e d =
    le32 e d.total_clusters ++ (le16 e d.bytes_per_sector ++ le32 e d.available_clusters)

unfoldable pub bytes_of_attrs : Endian → DosFileProperties → List ℕ
bytes_of_attrs e p =
    le16 e p.time_date
    ++ (le16 e (p.time_date / 2 ^ 16)
        ++ (le16 e p.size ++ (le16 e (p.size / 2 ^ 16) ++ byte p.attrs)))

unfoldable pub bytes_of_find : Endian → DosFileProperties → ℕ → ℕ → List ℕ
bytes_of_find e p handle nth =
    byte p.attrs
    ++ (name_bytes p.fcb_name
        ++ (le16 e p.time_date
            ++ (le16 e (p.time_date / 2 ^ 16) ++ (le32 e p.size ++ (le16 e handle ++ le16 e nth)))))

unfoldable pub bytes_of_position : Endian → ℕ → List ℕ
bytes_of_position e offset = le16 e offset ++ le16 e (offset / 2 ^ 16)

unfoldable pub bytes_of_open : Endian → DosFileProperties → FcbFileName → ℕ → ℕ → ℕ → List ℕ
bytes_of_open e p name handle result_code mode =
    byte p.attrs
    ++ (name_bytes name
        ++ (le32 e p.time_date
            ++ (le32 e p.size ++ (le16 e handle ++ (le16 e result_code ++ byte mode)))))
