-- ===== src/Lib.antt =====
-- NetMount: a server that shares directories with DOS machines over UDP, or over SLIP on a serial
-- line. The server in netmount-server/ is the subject; paths are from the root of the repository.
--
-- A packet comes in by a UDP socket, or as a SLIP frame that holds an IPv4 datagram. The main loop
-- checks its header and its checksum, looks the client up in the reply cache, has the request
-- processed, finishes the header of the reply and sends it back the way it came.
--
-- Base: shared helpers, lists and bits of native numbers.
-- Bytes (netmount-server/utils.hpp): ASCII case and byte order, for a host of either order.
--   Bytes/Wire says which bytes the conversions put in memory.
-- Slip (netmount-server/slip_udp_serial.cpp: encode_slip_block, encode_slip, recv_decode_slip):
--   `decode` is the loop of recv_decode_slip over the events of the line, by recursion on them.
-- Udp (netmount-server/slip_udp_serial.cpp: internet_checksum, build_headers, parse_udp_packet,
--   send, send_reply, receive): packed structures are records with the bytes they stand for.
--   fold_sum has a bound of 3 rounds, and a 32-bit sum is folded after 2 (Udp/Checksum).
-- Proto (shared/drvproto.h and netmount-server/netmount-server.cpp: bsd_checksum, the checks of
--   a packet and the header of a reply in main and process_request).
-- Server (netmount-server/netmount-server.cpp: ReplyCache, the start of process_request, the
--   body of the main loop): the handlers of the requests and what they work on are arguments.
-- Fcb (netmount-server/fs.cpp: operator<=>, match_fcb_name_to_mask, short_name_to_fcb,
--   sanitize_short_name, file_name_to_83): the names of DOS files. The suffix loop has its 9998
--   rounds. The conversion of a name to ASCII, which comes first, is in Unicode.
-- Drive (netmount-server/fs.cpp and fs.hpp: Drive::Item, get_handle, get_item, get_handle_path,
--   check_path_depth): the table of handles as a list of items, with 65535 of them at most.
-- Search (netmount-server/fs.cpp: set_volume_label, find_file): reading the directory is an
--   argument, which Folder fills.
-- Exec: code that may throw is an action on a state with its result; Exec/Keeps and Exec/Returns
--   are rules for what an action keeps and for what its value fulfils.
-- Os (netmount-server/fs.cpp: the functions of its unnamed namespace): what std::filesystem, the C
--   library and the files for each platform do is a record of functions on the world outside.
-- Folder (netmount-server/fs.cpp: create_directory_list, get_server_name, create_server_path): the
--   paths on the server for the paths of a client.
-- Operations (netmount-server/fs.cpp: the operations of Drive).
-- DiskInfo, ClientPath, Handlers, Requests (netmount-server/netmount-server.cpp: process_request,
--   create_relative_path, get_dos_err_code; shared/drvproto.h): the handlers of all functions, and
--   the drives that they work on. The loops of DISK_INFO have 6 and 7 rounds of fuel, after which
--   the limited sizes fit (DiskInfo/Bounds). `Requests.handle` fills the argument of Server.
-- Unicode (netmount-server/unicode_to_ascii.cpp): the conversion of names to ASCII, the argument
--   `to_ascii` of Folder, and the map that it uses.
-- Shares (netmount-server/netmount-server.cpp: get_token, string_ascii_to_upper,
--   parse_share_definition, and the choice of the attribute mode in main): what the system says of a
--   path is an argument. The loop over the options has the length of the text as its fuel, which is
--   enough (Shares/Rounds).
-- Options (netmount-server/netmount-server.cpp: the command line in main): strtol is an argument.
-- FatTime (netmount-server/fs.cpp: time_to_fat, fat_to_time): localtime and mktime are arguments.
--
-- A byte is a number below 256, a w-bit unsigned integer a number below 2 ^ w with its wrap-around
-- written out. Writing past the end of a buffer, which C++ leaves undefined, is an outcome of its
-- own. Not modelled: sockets, serial ports, logging, and what the operating system does.
pub mod Base
pub mod Bytes
pub mod Slip
pub mod Udp
pub mod Proto
pub mod Server
pub mod Fcb
pub mod Drive
pub mod FatTime
pub mod Search
pub mod Exec
pub mod Os
pub mod Folder
pub mod Operations
pub mod DiskInfo
pub mod ClientPath
pub mod Handlers
pub mod Requests
pub mod Unicode
pub mod Shares
pub mod Options
