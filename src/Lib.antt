-- ===== src/Lib.antt =====
-- VTest2, a program that runs test cases against HTTP clients, servers and proxies. This library models
-- how it reads a test script, how it receives HTTP/1 messages, its HTTP/2 side from the header compression
-- up to the commands on frames, the macros of the test language, its barriers, its expectations on a log,
-- and the header of the PROXY protocol.
--
-- The parts, and how they meet:
--   * HPACK (src/vtc_h2_hpack.c, src/vtc_h2_tbl.c, src/hpack.h) turns header fields into bytes and back.
--     It keeps a table for each direction. Hpack/Types has its types; Hpack/Num the integers;
--     Hpack/Huffman and Hpack/HuffDecode the two sides of the Huffman code, with the codes of
--     src/vtc_h2_enctbl.h in Hpack/CodingTable; Hpack/Str the strings; Hpack/Table the tables, with the
--     rows of src/vtc_h2_stattbl.h in Hpack/Static; Hpack/Header the fields. Functions keep their names
--     in lower case: `num_decode`, `str_encode`, `push_header`, `hpk_dec_hdr` for HPK_DecHdr.
--   * Frames (src/vtc_http2.c) are read by `receive_frame`, parsed by a function for each type, and
--     queued at their streams. Http2/Read has `get_bytes`; Http2/Frame the frame and its header;
--     Http2/Write `write_frame`; Http2/Receive a round of `receive_frame`, which collects the fragments of
--     a header block and gives them to `decode_hdr`;
--     Http2/State the connection and its streams; Http2/Payload `parse_data` and `parse_hdr`; Http2/Parse
--     the other `parse_*` functions, of which `parse_settings` resizes the encoder's HPACK table;
--     Http2/Bytes the functions of lib/vend.h.
--   * The commands on frames (src/vtc_http2.c): Http2/Commands has the numbers of arguments and txrst,
--     txprio, txping, txgoaway and txwinup, its child Settings txsettings and its child Bodies txdata, each
--     as a function of the words behind the command that gives what `write_frame` writes. Http2/Take has the
--     rx commands, on the frames that the receiver hands to a stream: `rxstuff` takes the next of a list,
--     which ends where no more frame comes.
--   * The script reader (`parse_string` in src/vtc.c) splits a script into lines and tokens, expands macros
--     in them and runs the commands. Script has the tokens and Script/Run the lines and the commands, whose
--     effects are a state that is an argument.
--   * HTTP/1 messages (src/vtc_http.c) are received into a buffer: Http1/Connection has `http_rxchar`,
--     Http1/Header `http_rxhdr`, `http_splitheader` and the search for fields, with the characters of
--     lib/vct.h, Http1/Body the body with `strtoul` from Http1/Strtoul, and Http1/Commands the rx*
--     commands; Http1/Send has the commands `chunked`, `chunkedlen` and `expect_pattern`. What arrives is
--     a list of segments, which `read` takes apart as it needs.
--   * Macros (src/vtc.c) are named texts that a test case uses. Macros has the list and the expansion.
--   * Barriers (src/vtc_barrier.c) make the threads of a test wait for each other. Barriers has the
--     operations, and the steps of threads that wait: `come` and `sync` are the parts of
--     `barrier_cond_sync` under its two locks.
--   * Expectations on a log (src/vtc_logexp.c): Logexp has the tests, `logexp_next` and `logexp_match`,
--     Logexp/Dispatch the check of the tests that must not match, `logexp_dispatch` over the records and
--     the thread, Logexp/Commands the commands `expect`, `fail` and `abort`. The tests that `le->test`
--     has passed and those ahead are two lists.
--   * The header of the PROXY protocol (src/vtc_proxy.c): Proxy has `vtc_proxy_tlv` and `vtc_send_proxy`,
--     on the addresses as Varnish's functions give them.
--   * Helpers (src/vtc_subr.c): Subr has `vtc_hex_to_bin`, `vtc_expect` and `vtc_wait4`, with regular
--     expressions, numbers and the status of a process as arguments.
--   * Base has what all share: tests, lists, integers, powers of two, and `Outcome`: a call returns,
--     ends the process (a failed assertion or `vtc_fatal`), or has no meaning in C.
--   * Tests has runs of the definitions and the theorems at concrete inputs.
--
-- Numbers are natural numbers below the width of their type, with `% 2 ^ w` where the source wraps.
-- Bytes are numbers, a pointer into a buffer is the bytes before and behind it, and NULL is `none` or,
-- for the data of a frame, the empty list. Memory is never short. A `char` is signed, as on x86.
--
-- Fuel: `pop_while` has a round for each entry of the table, which loses one each round; `flush` has a
-- round for each bit that waits; `expand_loop` one for each byte of the text, of which a call takes
-- three at least. `decode_loop` of the Huffman decoder has a round for each bit of its input and one
-- more. `read_line` and `parse_loop` have a round for each byte of the text, and each round takes one at
-- least; `rxhdr_loop`, `rxline`, `chunk_loop` and `eof_loop` have as many as the receive buffer has bytes,
-- and each round fills one at least or ends. `decode_slots` has one for each free slot, as in the source.
-- `parse_string` is given how deep `loop` may nest. All other loops follow the bytes or the entries that
-- they walk over.
--
-- Not modelled: log messages; the release of memory, but for a key that is freed twice in HPK_DecHdr;
-- the mutexes (each call is one step); the commands of HTTP/2 that send header blocks (`cmd_tx11obj`)
-- and those that look at a stream; the headers that HTTP/1 sends; the options of logexpect and how a
-- log is opened; barriers over sockets and the processes, which are input and output; teken.c, which
-- is FreeBSD's; and lib/, which is Varnish's, but for the characters of lib/vct.h and the numbers of
-- lib/vend.h. From there `VAV_ParseTxt` is an argument of the macros and `VAV_BackSlash` one of the
-- script reader, `strtoul` of base 0 of the commands, and the log, its tags and regular expressions of
-- the expectations on a log. The decoding tables that src/huffman_gen.py generates are an argument of
-- the Huffman decoder.
pub mod Base
pub mod Barriers
pub mod Hpack
pub mod Http1
pub mod Http2
pub mod Logexp
pub mod Macros
pub mod Proxy
pub mod Script
pub mod Subr
pub mod Tests
