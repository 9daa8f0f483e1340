-- ===== src/DiskInfo/Bounds.antt =====
-- The numbers fit their fields and state the size of the file system to within one sector.
use net_mount.Base.{ℕ, ◌+◌, ◌*◌, ◌^◌, ◌≤◌, ◌<◌, ◌≡◌, arith}
use net_mount.DiskInfo.{DiskInfo, limit, grow_sectors, disk_info, disk_info_large, most_bytes}

-- The numbers `d` state sizes of `size` and `free` bytes, rounded down to sectors, in a total number
-- of sectors and a size of a sector that are at most `most` and 32768.
abbrev pub States : ℕ → ℕ → ℕ → DiskInfo → Type 0
States most size free d =
    (d.bytes_per_sector * d.total_clusters ≤ size)
    × (size < d.bytes_per_sector * (d.total_clusters + 1))
    × (d.bytes_per_sector * d.available_clusters ≤ free)
    × (free < d.bytes_per_sector * (d.available_clusters + 1))
    × (d.total_clusters ≤ most)
    × (d.bytes_per_sector ≤ 0x8000)

-- For every size of a file system and its free space, DISK_INFO states both, limited to 2 GiB less
-- one byte, rounded down to whole sectors; the number of sectors is at most 65535, so the loop that
-- doubles the size of a sector has come to its end, and that size is at most 32768.
pub disk_info-States :
    (fs_size free_space : ℕ)
    → States 0xffff
        (limit most_bytes fs_size)
        (limit most_bytes free_space)
        (disk_info fs_size free_space)
unfolding disk_info grow_sectors limit
disk_info-States fs_size free_space =
    (ground arith, ground arith, ground arith, ground arith, ground arith, ground arith)

-- For a file system of less than 2 ^ 47 bytes, with no more free space than that, DISK_INFO_LARGE
-- states both, rounded down to whole sectors; the number of sectors is below 2 ^ 32, so its loop has
-- come to its end, and the size of a sector is at most 32768.
pub disk_info_large-States :
    (fs_size free_space : ℕ)
    → fs_size < 2 ^ 47
    → free_space < 2 ^ 47
    → States 0xffffffff fs_size free_space (disk_info_large fs_size free_space)
unfolding disk_info_large grow_sectors limit
disk_info_large-States fs_size free_space h g =
    (ground arith, ground arith, ground arith, ground arith, ground arith, ground arith)

-- From 2 ^ 47 bytes on, DISK_INFO_LARGE states a size of a sector of 0, whatever the free space: the
-- 16 bits of that size have wrapped around.
pub disk_info_large-wraps :
    (fs_size free_space : ℕ)
    → 2 ^ 47 ≤ fs_size
    → (disk_info_large fs_size free_space).bytes_per_sector ≡ 0
unfolding disk_info_large grow_sectors limit
disk_info_large-wraps fs_size free_space h = ground arith
