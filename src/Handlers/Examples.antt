-- ===== src/Handlers/Examples.antt =====
-- A search for `a/..` on the share `/s`.
use net_mount.Base.{ℕ, List, ◌≢◌, refl, arith, [], ◌∷◌}
use net_mount.Bytes.{little}
use net_mount.Drive.{FsPath}
use net_mount.Os.Sample.{World, sample}
use net_mount.Folder.Sample.{share}
use net_mount.Folder.{State}
use net_mount.Handlers.Searches.{template_handle}
use net_mount.Handlers.Escape.{EscapesTo, template_handle_escapes}

abbrev state : State World
state = record { items = []; world = [] }

abbrev template : FsPath
template = (b'a' ∷ []) ∷ (b'.' ∷ b'.' ∷ []) ∷ []

name-ne : ◌≢◌ {A = List ℕ} (b's' ∷ []) []
name-ne = ground arith

template_handle_escapes_example :
    EscapesTo share.root
      ((b'/' ∷ []) ∷ [])
      (template_handle little sample share (λ name. name) template state)
template_handle_escapes_example =
    template_handle_escapes little sample share (λ name. name) (b'/' ∷ []) [] (b's' ∷ []) template
      state refl name-ne refl (omega arith)
