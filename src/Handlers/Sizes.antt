-- ===== src/Handlers/Sizes.antt =====
-- How many bytes the data of a reply have.
use net_mount.Base.{
  ℕ, zero, suc, ◌^◌, ◌≤◌, ◌≡◌, refl, List, [], ◌∷◌, ltb, arith, length, length-append, take, Option,
  none, some, Bool-cases, inl, inr,
}
use net_mount.Bytes.{Endian, little, big, store16, store32}
use net_mount.Proto.{Answer}
use net_mount.Fcb.{FcbFileName, base_size, ext_size}
use net_mount.Drive.{FsPath, DosFileProperties}
use net_mount.DiskInfo.{DiskInfo}
use net_mount.Exec.{Exec}
use net_mount.Exec.Returns.{
  Returns, returns_rules, pure-Returns, bind-Returns, try_catch-Returns, bind_value-Returns,
}
use net_mount.Handlers.{guarded, guarded_by, on_path, done, seek_answer, refuse}
use net_mount.Handlers.Replies.{
  le16, le32, byte, name_bytes, bytes_of_disk_info, bytes_of_disk_info_large, bytes_of_attrs,
  bytes_of_find, bytes_of_position, bytes_of_open,
}

length-le16 : (e : Endian) (v : ℕ) → length (le16 e v) ≡ 2
unfolding le16 store16
length-le16 little v = refl
length-le16 big v = refl

length-le32 : (e : Endian) (v : ℕ) → length (le32 e v) ≡ 4
unfolding le32 store32
length-le32 little v = refl
length-le32 big v = refl

length-byte : (v : ℕ) → length (byte v) ≡ 1
unfolding byte
length-byte v = refl

pub length-take_le : (n : ℕ) (xs : List ℕ) → length (take n xs) ≤ n
length-take_le zero xs = omega arith
length-take_le (suc n) [] = omega arith
length-take_le (suc n) (x ∷ xs) = omega (arith, length-take_le n xs)

length-name_bytes : (f : FcbFileName) → length (name_bytes f) ≤ 11
unfolding name_bytes
length-name_bytes f = omega (
  arith,
  length-append (take base_size f.name_blank_padded) (take ext_size f.ext_blank_padded),
  length-take_le base_size f.name_blank_padded,
  length-take_le ext_size f.ext_blank_padded,
)

-- Most replies have no more data than this.
abbrev pub most_content : ℕ
most_content = 25

pub none-fits : (n : ℕ) → 0 ≤ n
none-fits n = omega arith

pub written-fits : (e : Endian) (v : ℕ) → length (le16 e v) ≤ most_content
written-fits e v = omega (arith, length-le16 e v)

pub disk_info-fits : (e : Endian) (d : DiskInfo) → length (bytes_of_disk_info e d) ≤ most_content
unfolding bytes_of_disk_info
disk_info-fits e d = omega (arith, length-append {0}, length-le16)

pub disk_info_large-fits :
    (e : Endian) (d : DiskInfo) → length (bytes_of_disk_info_large e d) ≤ most_content
unfolding bytes_of_disk_info_large
disk_info_large-fits e d = omega (arith, length-append {0}, length-le16, length-le32)

pub attrs-fits : (e : Endian) (p : DosFileProperties) → length (bytes_of_attrs e p) ≤ most_content
unfolding bytes_of_attrs
attrs-fits e p = omega (arith, length-append {0}, length-le16, length-byte)

pub find-fits :
    (e : Endian) (p : DosFileProperties) (handle nth : ℕ)
    → length (bytes_of_find e p handle nth) ≤ most_content
unfolding bytes_of_find
find-fits e p handle nth =
    omega (arith, length-append {0}, length-le16, length-le32, length-byte, length-name_bytes)

pub position-fits : (e : Endian) (offset : ℕ) → length (bytes_of_position e offset) ≤ most_content
unfolding bytes_of_position
position-fits e offset = omega (arith, length-append {0}, length-le16)

pub open-fits :
    (e : Endian) (p : DosFileProperties) (name : FcbFileName) (handle code mode : ℕ)
    → length (bytes_of_open e p name handle code mode) ≤ most_content
unfolding bytes_of_open
open-fits e p name handle code mode =
    omega (arith, length-append {0}, length-le16, length-le32, length-byte, length-name_bytes)

-- The answer has at most `n` bytes of data, and what a handler gives has, where it is an answer.
abbrev pub FitsIn : ℕ → Answer → Type 0
FitsIn n a = length a.content ≤ n

abbrev pub AnswerFits : ℕ → Option Answer → Type 0
AnswerFits n none = Unit
AnswerFits n (some a) = FitsIn n a

pub seek-fits : (e : Endian) (offset size : ℕ) → FitsIn most_content (seek_answer e offset size)
unfolding seek_answer
seek-fits e offset size = elim (Bool-cases (ltb size (2 ^ 31))) [
  | inl small ↦ rw small (position-fits e _)
  | inr large ↦ rw large (omega arith)
]

module _ {S : Type 0} {n : ℕ} where
  pub guarded-fits :
      (code : ℕ) (m : Exec S Answer)
      → Returns (FitsIn n) m
      → Returns (AnswerFits n) (guarded code m)
  unfolding guarded
  guarded-fits code m r =
      bind_value-Returns (FitsIn n) _ _
        (try_catch-Returns m _ r (λ ex. pure-Returns _ (none-fits n)))
        (λ a q. pure-Returns (some a) q)

  pub guarded_by-fits :
      (code : ℕ) (m : Exec S Answer)
      → Returns (FitsIn n) m
      → Returns (AnswerFits n) (guarded_by code m)
  unfolding guarded_by
  guarded_by-fits code m r =
      bind_value-Returns (FitsIn n) _ _
        (try_catch-Returns m _ r (λ ex. pure-Returns _ (none-fits n)))
        (λ a q. pure-Returns (some a) q)

  pub refuse-fits : Returns {S = S} (AnswerFits n) refuse
  refuse-fits = pure-Returns none tt

  pub done-fits : (m : Exec S Unit) → Returns (FitsIn n) (done m)
  done-fits m = bind-Returns m _ (λ a. pure-Returns _ (none-fits n))

  pub on_path-fits :
      (code : ℕ) (op : FsPath → Exec S Answer) (m : List ℕ)
      → ((p : FsPath) → Returns (FitsIn n) (op p))
      → Returns (AnswerFits n) (on_path code op m)
  unfolding on_path
  on_path-fits code op m r = search (returns_rules, guarded-fits, refuse-fits, r)

pub ruleset fits_rules = (
  returns_rules, none-fits, written-fits, disk_info-fits, disk_info_large-fits, attrs-fits,
  find-fits, position-fits, open-fits, guarded-fits, guarded_by-fits, refuse-fits, done-fits,
  on_path-fits, seek-fits,
)
