-- ===== src/ClientPath/Examples.antt =====
-- The path `\A\b` on the share `/s`, whose directories all have one file `a`.
use net_mount.Base.{ℕ, ◌≡◌, refl, List, [], ◌∷◌, false}
use net_mount.Bytes.{ascii_to_lower}
use net_mount.Exec.{ok}
use net_mount.Exec.Returns.{Holds}
use net_mount.Os.{Os}
use net_mount.Os.Sample.{World, sample}
use net_mount.Folder.Sample.{share}
use net_mount.Folder.{State, create_server_path}
use net_mount.Folder.Names.{HasNames}
use net_mount.Folder.Within.{Behind}
use net_mount.ClientPath.{create_relative_path, relative_path, split_slashes, drop_empty}
use net_mount.ClientPath.Relative.{create_server_path-Behind}

abbrev one_file : Os World
one_file = record sample { iterate = λ p w. ((b'a' ∷ []) ∷ [], ok tt) }

abbrev state : State World
state = record { items = []; world = [] }

abbrev sent : List ℕ
sent = b'\\' ∷ b'A' ∷ b'\\' ∷ b'\\' ∷ b'b' ∷ []

relative_test : create_relative_path sent ≡ (b'a' ∷ []) ∷ (b'b' ∷ []) ∷ []
unfolding create_relative_path relative_path split_slashes drop_empty ascii_to_lower
relative_test = refl

create_server_path-Behind_example :
    HasNames
      (create_server_path one_file share
        (λ name. name)
        (create_relative_path sent)
        false
        state).1.items
    × Holds
        (λ r. Behind share.root r.0)
        (create_server_path one_file share (λ name. name) (create_relative_path sent) false state).0
create_server_path-Behind_example =
    create_server_path-Behind one_file share (λ name. name) sent false state (λ p w. (refl, tt)) tt
