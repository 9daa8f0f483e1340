-- ===== src/DiskInfo/Examples.antt =====
-- A disk of 32 MiB, one of 1 GiB, and one of 128 TiB.
use net_mount.Base.{◌≡◌, refl, ◌^◌, arith}
use net_mount.DiskInfo.{disk_info, disk_info_large, grow_sectors, limit, most_bytes}
use net_mount.DiskInfo.Bounds.{
  States, disk_info-States, disk_info_large-States, disk_info_large-wraps,
}

disk_info_test : (disk_info 33554432 4096).bytes_per_sector ≡ 1024
unfolding disk_info grow_sectors limit
disk_info_test = refl

disk_info-States_example :
    States 0xffff (limit most_bytes 33554432) (limit most_bytes 4096) (disk_info 33554432 4096)
disk_info-States_example = disk_info-States 33554432 4096

disk_info_large-States_example : States 0xffffffff (2 ^ 30) 4096 (disk_info_large (2 ^ 30) 4096)
disk_info_large-States_example = disk_info_large-States (2 ^ 30) 4096 (omega arith) (omega arith)

disk_info_large-wraps_example : (disk_info_large (2 ^ 47) 4096).bytes_per_sector ≡ 0
disk_info_large-wraps_example = disk_info_large-wraps (2 ^ 47) 4096 (omega arith)
