-- ===== src/Bytes/Examples.antt =====
-- Conversions of single values.
use net_mount.Base.{◌≡◌, refl}
use net_mount.Bytes.{ascii_to_upper, ascii_to_lower}

ascii_test : ascii_to_lower (ascii_to_upper b'q') ≡ b'q'
unfolding ascii_to_upper ascii_to_lower
ascii_test = refl
