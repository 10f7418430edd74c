-- ===== src/Lib.antt =====
-- Verification of the driver assistance terminal: the program that speaks the serial protocol of
-- the "Su standard" between a camera device and a vehicle terminal. It receives frames, numbers,
-- seals and escapes its own, keeps the device's parameters, reports warnings with photos and
-- videos, uploads these in packets, and takes upgrades.
--
-- The parts, the code of each and how they interact:
--   Base        shared names, Boolean tests and lemmas on lists
--   Prot        constants, layouts and byte order of prot.h
--   Frame       process.cpp: `sample_calc_sum`, `sample_escaple_msg`, `unescaple_msg`, `prot_parse`;
--               the handler of commands is a parameter, over any state
--   Queue       common.cpp: `ptr_queue_push`, `ptr_queue_pop`; process.cpp: `push_mm_queue`,
--               `pull_mm_queue`, `clear_queue`
--   Serial      process.cpp: `do_serial_num`, `get_next_id`
--   Send        process.cpp: `message_queue_send`, over Frame, Queue and Serial
--   Field       fields of packed structures and the form of the range checks
--   Para        para.cpp: merge, checks, defaults and files of the parameters; rb_rw.cpp: `write_file`
--   App         the state that the threads share, and the accessors on it
--   Resource    common.cpp: the list of media resources
--   Warn        process.cpp: the messages of warnings and snapshots, their media ids and orders
--   Transfer    process.cpp: `send_mm_req_ack`, `recv_ack_and_send_image`, `sample_send_image`
--   Upgrade     process.cpp: `get_sum`, `recv_upgrade_file`
--   Setting     process.cpp: the handlers of parameter and status requests
--   Dispatch    process.cpp: `sample_on_cmd`, over all the handlers: the handler for Frame
--   Alert       process.cpp: the filters by time and speed; Alert/Dms `deal_wsi_dms_info`, Alert/Adas
--               `deal_wsi_adas_can700`, over Warn
--   Link        process.cpp: the connection's status and reset, `check_heart_beat`; Link/Package
--               `send_package` and `pthread_process_send`, Link/Snap `pthread_snap_shot` and
--               `record_speed`
--   Net         net.cpp: `tcp_snd`, `Nwrite`, `Nread`, `tcp_rcv`; uart.cpp: `uart_snd`, `uart_rcv`;
--               process.cpp: the inner loop of `pthread_process_recv`, over Frame; Net/Line
--               uart.cpp: `set_opt`, `uart_init`; Net/Socket `socket_init`, `socket_close`
--   System      the steps of all the threads on one state, in any order; System/Receive
--               process.cpp: `pthread_process_recv` with net.cpp: `try_connect`, over Net, Link and
--               Dispatch; System/Boot the threads from `global_var_init` on, over Start
--   Camera      rb_rw.cpp: the tasks of `pthread_save_media`, `config_adas_video_resolution`,
--               `config_dms_video_resolution`, `store_jpegs`, `record_video_media`; Camera/Encode
--               `encode_process`, `EncodeRingBufWrite`, `GetConfigResolution`
--   Client      wsi.cpp: `msgpack_object_get`, `unpack_wsi_msg` and `callback_lws_communicate`;
--               process.cpp: `deal_wsi_adas_can760`, over Alert; Client/Connects
--               `ratelimit_connects`, `pthread_websocket_client`
--   Config      wsi.cpp: `set_local_config_default`, `parse_prot_json`, `local_config_init` and the
--               options of `main`
--   Files       process.cpp: `mmid_to_filename`, `getFileId`, `getmmFileNumMax`, `getmmFileSize`,
--               `clear_old_media`; rb_rw.cpp: `parse_filename`, `read_local_file_to_list`
--   Start       process.cpp: `global_var_init`, over Files and Para; `prot_init_pre`,
--               `handle_distroy`
--   Tests       runs on concrete inputs
--
-- Correspondence. Structures that the program copies as bytes are lists of bytes with the offsets
-- of their fields; other structures are records. A handler takes the state and the receive buffer
-- and gives both back, since some handlers build their answer in that buffer. The counters wrap as
-- the source's types do. Failing `malloc`s and files are flags and fields of the state. Every mutex
-- guards one call of an accessor. In System/Reach, each call that a new connection makes is a step
-- of its own, and each pop of `clear_queue` too; the call of a handler is one step. Files of media
-- are bytes by id. The clock is an argument of a call. What the system or a library answers (`write`,
-- `read`, `select`, the timed wait, the frames of a camera) is a list of results, each used by the
-- next call; what the other threads do while a thread waits is a function on the state in that list.
-- `reports`, `shots` and `sent` keep what was reported, photographed and sent, for statements.
--
-- Limits of this view. `rcvData` is a list without an end, where the program has 65536 bytes: a
-- longer list stands for a write behind the block. While `send_package` waits, the other threads do
-- not change the connection's status. A session in System/Receive sees what its own calls return;
-- that another thread has closed the descriptor is seen in the failure of `select` alone.
--
-- Rounds and fuel: a round of `escape_loop` moves the index past one byte of the message, so the
-- message's length less 2 is enough; a round of `copy_loop` goes up by one at least, so the size of
-- the structure is enough; a round of `clear_loop` takes a node, so the length of the queue is.
--
-- Assumed: `htons`, `htonl` and their inverses write and read the most significant byte first, the
-- host keeps 16-bit parameters with the low byte first, and a `char` is unsigned, as on ARM. The TCP
-- build is modelled; the RS232 build leaves out the media orders.
--
-- What the msgpack library unpacks and packs is a parameter. An object it unpacks is a term with
-- the library's kinds; a string is its size and the memory at its pointer. The JSON library's parser
-- is a parameter in the same way, from a text to a value. `strtol` is written out for the base 10,
-- with a `long` of 64 bits. A directory is the list of entries that `readdir` gives.
--
-- Not modelled: `deal_wsi_dms_info2` and other code that `#if` leaves out, and what only it calls;
-- `socketkeepalive` and `store_one_mp4`, which nothing calls; the lines of the log and the times of
-- day in them; the creation of directories and the start of threads, which only call the system; the
-- JPEG encoder, the ring buffers and the drawing on frames (rb_rw.cpp), which are libraries that are
-- not in the repository.
pub mod Base
pub mod Prot
pub mod Files
pub mod Frame
pub mod Queue
pub mod Field
pub mod Para
pub mod Serial
pub mod Send
pub mod App
pub mod Warn
pub mod Resource
pub mod Transfer
pub mod Upgrade
pub mod Setting
pub mod Start
pub mod Alert
pub mod Link
pub mod Net
pub mod System
pub mod Camera
pub mod Client
pub mod Config
pub mod Dispatch
pub mod Tests
