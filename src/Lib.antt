-- ===== src/Lib.antt =====
-- Verification library of the CCcam 3 server: the way of a request for a control word from the
-- wire, through the cache, the hop limits and the readers, back to the wire.
--
-- The program. A client sends an ECM message over a session (src/network/cccam3_protocol.c) whose
-- cipher is RC4 (src/network/cccam3_crypto.c) or one of OpenSSL's. The server parses it and calls
-- cccam_ecm_process (src/CCshare/cccam3_ecm.c), which looks in the cache of control words
-- (src/CCshare/cccam3_cache.c), asks the hop control for the hop at which the word may be served
-- (src/CCshare/cccam3_hop_control.c), and on a miss asks the card manager
-- (src/CCshare/cccam3_card_manager.c) for a reader and its answer; the answer is put into the
-- cache and sent as a CW message. The client's counters are kept in the pool of clients
-- (src/core/cccam3_client.c), whose objects are counted by references.
--
-- The files. Each module models one component; its children hold the theorems.
--   Cache       cccam3_cache.c: the list, its counter and its settings; `add`, `find`, `remove`,
--               `clean_expired` and the rest are the functions cccam_cache_*. Cache.Step has the
--               calls as data, Cache.Invariant the invariant.
--   HopControl  cccam3_hop_control.c: `check`, `register`, `increment_hop`, `set_limit` and the
--               rest are the functions cccam_hop_control_*.
--   Readers     cccam3_card_manager.c: `select_reader`, `get_cw`, `add_reader`, `remove_reader`,
--               `update_state`, `init`, `reload` and, in Readers.Dedup and Readers.Emm,
--               cccam_card_manager_send_emm. Readers.Step has the calls as data.
--   Clients     cccam3_client.c: `create`, `destroy`, `ref`, `unref`, `find_by_id`,
--               `get_by_index_ref` and the setters;
--               Clients.References adds the references that threads hold.
--   Ecm         cccam3_ecm.c: `process` is cccam_ecm_process, on the states of the four above.
--   Rc4         cccam3_crypto.c: `rc4_init` and `rc4_stream`.
--   Session     cccam3_protocol.c, its cipher: `set_crypto`, `encrypt`, `decrypt`.
--   Protocol    cccam3_protocol.c, its messages: `build_ecm`, `build_emm`, `build_cw`,
--               `build_login`, `build_login_ack`, `parse`; parse_ecm_payload of
--               src/core/cccam3_server.c and the reading of a CW in cccam3_card_manager.c.
--   Legacy      src/network/cccam3_cc_legacy.c: the cipher of CCcam 2.x clients, `cc_crypt`, and
--               `cc_cw_crypt`, which scrambles their control words. Legacy.Messages has the sending
--               and receiving of messages, Legacy.Service the handling of messages and the loop of a
--               client (`handle_ecm`, `handle_message`, `serve_rounds`), on the ECM handler's state,
--               and Legacy.Login the login (`login`, `serve_client`).
--   Users       src/CCshare/cccam3_user_manager.c: `add_user`, `remove_user`, `authenticate`, the
--               setters, `register_ecm`, `load`, and the parts of the initialisation and of a
--               reload; Users.Register has `auto_register`, Users.Step the calls as data.
--   Server      src/core/cccam3_server.c. Server.IpFilter: `parse_ip_entry`, `load_ip_list`,
--               `ip_match`, `ip_allowed`. Server.LoginGuard: `login_failure`, `login_success`,
--               `login_blocked`, and in Server.LoginGuard.Threads their calls from many threads.
--               Server.RateLimit: `ecm_allowed` is client_ecm_allowed.
--               Server.Login: `client_login` is handle_client_login up to its decision, on the
--               guard and the users, in two parts, `enter` and `decide`; Server.Login.Threads has the
--               parts of many threads' logins in any order; Server.Accept: `finish_login` is the rest of it.
--               Server.Requests: `handle_client_ecm`, on the ECM handler, the users and the session.
--   Handshake   src/network/cccam3_handshake.c and cccam3_handshake_advanced.c: `handle_login` and
--               `handle_login_response`, the two handshakes below them, and the codec. The login of
--               a reader into another server, which uses them, is Readers.Remote.
--   Newcamd     src/network/cccam3_newcamd.c: `ncd_send_message`, `ncd_decrypt_message`, `ncd_open`
--               (the beginning of cccam_newcamd_process). Newcamd.Crypt: md5_crypt. Newcamd.Service:
--               the handlers of a card request and an ECM, and the dispatch. Newcamd.Login:
--               `ncd_handle_login` and `cccam_newcamd_process`.
--               `newcamd_payload` is what handle_newcamd_message of the server reads.
--   Base        numbers, tests, lists, the walks over linked lists that the components share
--               (Base.Chain: find the first match, unlink it, free all that match, change it), and
--               exclusive or (Base.Bits).
--
-- How the code is read. A linked list is a list, head first, and a fixed array a list or a
-- function of its index; global variables are the fields of a record that each call takes and
-- returns. time(NULL) is an argument, read once in each call; what malloc returns and what the
-- network, a smart card or the emulator answer are arguments too. A function that takes a lock over
-- its whole state is one step, so threads are a sequence of calls in any order. The
-- list of readers and the login guard have no lock; their calls are taken one after the other too. A uint8_t or
-- uint16_t that the code computes is cut to its width (`% 2 ^ 8`); counters of events and times are
-- unbounded numbers. Log lines and the printing of statistics are left out.
--
-- Fuel and ends. Only the eviction loop of cccam_cache_add is not a walk over a list: it runs on
-- fuel one more than the number of entries, `none` says that it has not ended, and it ends within
-- that fuel in every state that the cache reaches.
--
-- OpenSSL is the record Suite of Session: block ciphers in CBC, AES-GCM and SHA-256 as functions, and
-- the record Digests of Handshake, with SHA-1 and PBKDF2. The round trips rely on the laws in
-- Session.Rules and, for a handshake, in Handshake.Codec: decryption undoes encryption, and the lengths
-- are those that OpenSSL documents.
--
-- The first loop of md5_crypt runs on fuel too, which is an argument; a Newcamd handler that never
-- leaves it ends in `stuck`.
--
-- A read beyond an array, where the code makes one, is a fault (`fault` or `none`), and the loop of
-- a legacy client runs over the list of what happens on its socket, so it needs no fuel.
--
-- Not modelled: socket I/O and the threads and dispatch of src/core/cccam3_server.c; the signatures
-- of control words by RSA, the start of a Newcamd session, and the reading of the lines of the
-- files of users and of readers, whose contents are arguments; cccam_client_close_all;
-- the emulator (src/CCshare/cccam3_emu*.c), much of it ports of other projects; device access (src/hardware), the
-- REST API and the web interface (src/api), configuration, logging and scripts.
mod Base
pub mod Cache
pub mod Handshake
pub mod HopControl
pub mod Readers
pub mod Clients
pub mod Ecm
pub mod Rc4
pub mod Session
pub mod Protocol
pub mod Legacy
pub mod Newcamd
pub mod Users
pub mod Server
