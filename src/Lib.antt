-- ===== src/Lib.antt =====
-- A verification library for vibevoice.c, a C runtime for speech recognition with a streaming server.
--
-- The program's parts and where they are modelled:
--
--   Admission      src/server/vv_queue.h: the line in front of the inference slots. Threads take
--                  tickets (vv_queue_enter: enter, then admit after each wake), try to slip in
--                  (vv_queue_try_enter: try_admit) and leave (vv_queue_leave: leave). Admission.System
--                  interleaves any number of threads at the points where they hold no lock.
--   Gguf           src/model/gguf.c: the size in bytes of a tensor of a GGUF file (vv_ggml_nbytes);
--                  the cursor (Cursor), parse (Parse) and the accessors (Access). The file is the list
--                  of its bytes and a pointer into it an offset; a key or name is an offset in the
--                  arena plus 1, as in the code; the parameter `alloc` says for which sizes vv_alloc
--                  has memory, where a kv, a tensor and the handle take 48, 80 and 96 bytes.
--   Http           src/server/http.c: the searches in texts (Http), head_content_length (Head), the loop
--                  of read_request that receives a request (Receive) and its parsing of the head, the
--                  lookup of headers and the tests of vv_http_ws_accept (Request), the whole of
--                  read_request (Exchange), json_escape_into (Json), vv_http_parse_multipart
--                  (Multipart), and vv_http_serve with conn_thread as steps (Server). A text is the
--                  list of its bytes. The bytes that a client sends and what each call of recv gives of
--                  them are arguments, as are the answers of the clock and of vv_alloc.
--   KvPool         src/inference/kv_cache.c: the pages that the KV caches share (struct vv_kv_pool).
--                  reserve_pages is reserve_entry, then a round each time the thread holds the lock,
--                  then the mapping of the pages on the device, whose answer is any, and keep or undo;
--                  vv_kv_cache_release is release. KvPool.System interleaves any number of caches at
--                  the points where the lock is free.
--   Tokenizer      src/text_tokenizer/bpe.c: the byte-pair tokenizer. Tokenizer.Utf8 is UTF-8 and the
--                  byte alphabet, Tokenizer.Split the pieces (next_piece), Tokenizer.Merge bpe_piece
--                  and encode_text_run, Tokenizer.Codec vv_tokenizer_encode and decoding. Encoding is
--                  over two lookups (the record Lookups); Tokenizer.Table is the hash tables behind
--                  them, Tokenizer.Load vv_tokenizer_load from the values that the JSON parser hands over.
--   Vad            src/audio/vad.c: the voice activity detector. Vad.Detector is one frame
--                  (process_frame and what it calls), Vad.Stream the queue in front of it
--                  (vv_vad_push, vv_vad_drain, vv_vad_flush). Vad.Samples feeds a detector one sample
--                  at a time, with the same process_frame and without the queue.
--   WebSocket      src/server/ws.c: the parser of WebSocket frames. WebSocket.Frame is a round of the
--                  loop of vv_ws_parser_feed, WebSocket.Feed the parser (grow, fail, the loop).
--                  WebSocket.Stream reads the whole stream at once with the same frame,
--                  without the buffers of the parser.
--                  WebSocket.Sse is vv_sse_format of the same file, WebSocket.Cut the event it is
--                  meant to write. WebSocket.Handshake is the answer to a client's key (vv_sha1,
--                  vv_base64_encode, vv_ws_accept_key) and vv_ws_frame_header.
--   Common         tests, lists, sums, bytes and the status codes that these share.
--
-- In the program the server asks Admission for a slot before it runs a request, a running request
-- reserves pages of KvPool as its sequence grows, and the WebSocket parser turns what a client sends
-- into messages of audio for a streaming session. The detector serves the live microphone.
--
-- State is passed explicitly. A buffer is the list of its bytes or samples, with its capacity beside
-- it where the code keeps one; `uint64_t` tickets and generations, and the sums of sizes in the
-- parser, wrap around as in C. Floating point is a parameter of Vad (Vad.Floats), the success of each
-- allocation is a parameter of Vad and WebSocket, and the device's answers are inputs of the steps of
-- KvPool.System.
--
-- Fuel: the parser's loop has the length of its input and one more rounds, and each round takes at
-- least two bytes; draining the detector has the length of its queue and one more, and each round
-- takes a sample if a frame has one; doubling a capacity has as many rounds as the need, and each
-- adds at least one. The loops of the tokenizer have the length of their text, and each round takes a
-- byte at least; merging has as many rounds as there are symbols, and each takes one away. A text is
-- shorter than 2^31 bytes, as its positions fit the code's 32-bit fields.
--
-- Not modelled: the device kernels, the numeric kernels, the model loaders and the pipeline, which are
-- tensor arithmetic; the sockets, threads and the microphone, which are the operating system's; the
-- command line, the tests and the tools; third_party/cjson, another project's code. Nor are
-- the mapping of GGUF files and their dequantisation, the readers of safetensors and WAV files, the
-- storage of the KV cache, and the repacking of weights.
pub mod Common
pub mod Admission
pub mod Gguf
pub mod Http
pub mod KvPool
pub mod Tokenizer
pub mod Vad
pub mod WebSocket
