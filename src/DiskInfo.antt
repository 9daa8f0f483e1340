-- ===== src/DiskInfo.antt =====
-- netmount-server/netmount-server.cpp, the numbers that `process_request` gives for DISK_INFO and
-- DISK_INFO_LARGE: the sizes are limited, and the size of a sector is doubled until the number of
-- sectors fits. A long number has 64 bits, as on Linux. The loops run on fuel.
pub mod Bounds
mod Examples
use net_mount.Base.{ℕ, zero, suc, ◌*◌, ◌/◌, ◌%◌, ◌^◌, ltb, if◌then◌else◌}
use net_mount.Bytes.{u16}

pub record DiskInfo : Type 0 where
  pub total_clusters : ℕ
  pub bytes_per_sector : ℕ
  pub available_clusters : ℕ

unfoldable pub limit : ℕ → ℕ → ℕ
limit most x = if ltb most x then most else x

-- The loop: `most` sectors fit, and the size of a sector has 16 bits.
unfoldable pub grow_sectors : ℕ → ℕ → ℕ → ℕ → ℕ → DiskInfo
grow_sectors zero most bytes total free = record {
  total_clusters = total;
  bytes_per_sector = bytes;
  available_clusters = free;
}
grow_sectors (suc fuel) most bytes total free =
    let rest = grow_sectors fuel most (u16 (bytes * 2)) (total / 2) (free / 2) in
    if ltb most total
    then rest
    else (record { total_clusters = total; bytes_per_sector = bytes; available_clusters = free })

abbrev pub most_bytes : ℕ
most_bytes = 0x7fffffff

abbrev pub most_sectors : ℕ
most_sectors = 0xffff

unfoldable pub disk_info : ℕ → ℕ → DiskInfo
disk_info fs_size free_space =
    grow_sectors 6 most_sectors 512 (limit most_bytes fs_size / 512)
      (limit most_bytes free_space / 512)

abbrev pub most_bytes_large : ℕ
most_bytes_large = 0xffffffff * 0xffff

abbrev pub most_sectors_large : ℕ
most_sectors_large = 0xffffffff

unfoldable pub disk_info_large : ℕ → ℕ → DiskInfo
disk_info_large fs_size free_space =
    grow_sectors 7 most_sectors_large 512 (limit most_bytes_large fs_size / 512)
      (limit most_bytes_large free_space / 512)
