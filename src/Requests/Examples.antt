-- ===== src/Requests/Examples.antt =====
-- A server that shares the directory `/s` as drive C, read-only, and requests to it.
use net_mount.Base.{
  ℕ, ◌≡◌, refl, List, [], ◌∷◌, ◌++◌, Bool, false, ◌≤◌, subst, Bool-cases, inl, inr, some, arith,
}
use net_mount.Bytes.{little, load16, from_little16}
use net_mount.Proto.{hdr_at, check_request}
use net_mount.Os.Sample.{World, is_file_node, node_at, sample, directory, file}
use net_mount.Folder.Sample.{share}
use net_mount.Handlers.Fits.{ReadsFit}
use net_mount.Handlers.Sizes.{length-take_le}
use net_mount.Server.{blank_info, Server, receive_packet}
use net_mount.Server.Fault.{IsSafe}
use net_mount.Requests.{Drive, Machine, handle, is_read_only, function_of}
use net_mount.Requests.ReadOnly.{handle-world}
use net_mount.Requests.Reading.{handle_reading-world}
use net_mount.Requests.Fits.{request_limit, receive_packet-IsSafe}

abbrev drive : Drive
drive = record { share = share; items = [] }

abbrev unused : Drive
unused = record { share = record share { used = false; root = [] }; items = [] }

abbrev world : World
world = (share.root, directory) ∷ (share.root ++ (b'a' ∷ []) ∷ [], file (1 ∷ 2 ∷ [])) ∷ []

abbrev machine : Machine World
machine = record { drives = unused ∷ unused ∷ drive ∷ []; world = world; ended = false }

-- MAKE_DIR "\b" on drive C
abbrev make_dir_request : List ℕ
make_dir_request = 1 ∷ 10 ∷ 0 ∷ 0x24 ∷ 0x95 ∷ 7 ∷ 2 ∷ 3 ∷ b'\\' ∷ b'B' ∷ []

abbrev keep : List ℕ → List ℕ
keep name = name

handle-world_example : (handle little sample keep machine make_dir_request).0.world ≡ world
unfolding is_read_only hdr_at load16 function_of
handle-world_example =
    handle-world little sample keep machine make_dir_request refl (λ p. ground (arith, p))

-- GET_ATTRS "\b" on the same drive
abbrev get_attrs_request : List ℕ
get_attrs_request = 1 ∷ 10 ∷ 0 ∷ 0x24 ∷ 0x95 ∷ 7 ∷ 2 ∷ 0x0f ∷ b'\\' ∷ b'B' ∷ []

handle_reading-world_example : (handle little sample keep machine get_attrs_request).0.world ≡ world
unfolding hdr_at load16 function_of
handle_reading-world_example =
    handle_reading-world little sample keep machine get_attrs_request refl

abbrev server : Server (Machine World)
server = record { cache = blank_info ∷ blank_info ∷ []; world = machine }

checked : check_request little make_dir_request ≡ some (make_dir_request, false)
unfolding check_request hdr_at load16 from_little16
checked = refl

make_dir_limit :
    (request : List ℕ) (ck : Bool)
    → check_request little make_dir_request ≡ some (request, ck)
    → request_limit little request ≤ 1492
unfolding hdr_at load16 function_of
make_dir_limit request ck p =
    let same : make_dir_request ≡ request = ground (arith, checked, p) in
    subst (λ (r : List ℕ). request_limit little r ≤ 1492) same (omega arith)

-- The sample gives at most the bytes that are asked for.
sample-ReadsFit : ReadsFit sample
sample-ReadsFit p offset len w = elim (Bool-cases (is_file_node (node_at p w))) [
  | inl plain ↦ rw plain (length-take_le len _)
  | inr other ↦ rw other tt
]

receive_packet-IsSafe_example :
    IsSafe
      (receive_packet little (handle little sample keep) is_read_only 9 1 2 make_dir_request server)
receive_packet-IsSafe_example =
    receive_packet-IsSafe little sample keep sample-ReadsFit 9 1 2 make_dir_request server
      (omega arith) (omega arith, (omega arith, tt)) make_dir_limit
