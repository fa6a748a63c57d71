-- ===== src/Lib.antt =====
-- PreCall: a desktop client sends screenshots and the metadata of the windows on them over a TLS
-- connection to a broker, which stores them; an HTTP server answers queries over what is stored.
--
-- The parts and their files. Proto (crates/precall-proto/src) is the wire: Proto.Channel is
-- channel.rs, Proto.Mux the codec of codec.rs (`MuxCodec::decode` and `encode` are `decode` and
-- `encode` on byte lists), Proto.Limited its JSON messages, Proto.Pinning pinning.rs, Proto.Gfx
-- gfx.rs (`GfxPdu::decode`, `encode`, the iterator `next`), Proto.Metadata metadata.rs,
-- Proto.Handshake handshake.rs, Proto.Error error.rs. Client (crates/precall-client/src) is the
-- sender: Client.Run is the loop of run.rs (`run_session` the inner loop over its events,
-- Client.Run.Backoff the attempts to connect), Client.Session the sending methods of session.rs
-- and Client.Connect its `connect`, Client.Privacy is privacy.rs and what run.rs does with it at a
-- capture tick and on a control message, Client.Meta meta.rs, Client.Config config.rs, Client.Jpeg
-- jpeg.rs, Client.Dxgi the copy and the thread of dxgi.rs, Client.Audio the samples of audio.rs.
-- Mock is the test client of crates/precall-mock/src/lib.rs. Broker (crates/precall-broker/src)
-- receives: Broker.Auth is auth.rs, Broker.Frames the `FrameAssembler` and `handle_gfx` of
-- ingest.rs, Broker.Ingest its handlers of the other channels and their dispatch, Broker.Connect
-- the handshake and the count of the sessions, Broker.Session the loop of a session. Store
-- (crates/precall-store/src) keeps the data: Store.Ukg is ukg.rs over the tables of schema.rs,
-- Store.Objects objects.rs, Store.Crypto crypto.rs, Store.Semantic semantic.rs; Store.Sql has the
-- parts of SQL that the queries use. Api (crates/precall-api/src) answers: Api.Auth is auth.rs,
-- Api.Embed embed.rs, Api.Enrich a pass of enrich.rs over one client or all, Api.Search the
-- `search` of routes.rs and Api.Routes its other routes. Prelude has helpers, Tests the runs at
-- concrete inputs.
--
-- How they interact: the client wraps a frame in PDUs and a mux frame; `dispatch` of Broker.Ingest
-- hands a mux frame to `handle_gfx`, whose finished frames wait in `pending`, or to `handle_meta`,
-- which takes one pending frame for each capture, writes it with `put` and stores the capture with
-- `insert_capture`. The timeline and the queues of Store.Ukg.Queues read those rows: a pass of
-- Api.Enrich embeds the captures of the queues with Api.Embed, inserts the embeddings into the two
-- indexes of Store.Semantic and marks what is done. `search` ranks the hits of the full-text index
-- and of both indexes and fuses the ranks; `snapshot` reads the frame that `put` has written,
-- always with the API's own key, also where the broker writes without encryption.
--
-- How state is modelled: a stateful object is a record that its operations take and return; an SQL
-- table is the list of its rows in the order of insertion with the counter of its key; a fallible
-- function returns a sum. Bytes and code points are native numbers; u16, u32 and the conversions
-- between u64 and i64 keep their wrap-around; a signed integer is an unbounded one.
--
-- Fuel: `handle_gfx` runs its loop with one round more than the payload has bytes, which is enough
-- because each PDU takes at least its header of eight bytes; `none` would mean missing fuel.
-- `drain` of Proto.Mux.Stream has more rounds than there are frames. `export` has one round for
-- each capture and one more, as each page moves the cursor below a capture; `digest_chunks` has a
-- round for each byte, and a round takes one byte at least; so has `hash_chunks`, and `digits` has
-- a round for each unit of the number. All other loops are structural recursion.
--
-- Parameters, which stand for code outside the repository: SHA-256 and `to_lowercase`
-- (Broker.Auth, Api.Auth, Client.Privacy), AES-256-GCM and the random nonces (Store.Crypto,
-- Store.Objects, Broker.Ingest), `char::is_alphanumeric` and `Path::starts_with` (Store.Objects),
-- the JSON parsers and the clock (Broker.Ingest, Broker.Connect, Api.Enrich), the HTTP client and
-- the answers of the AI service (Api.Embed, Api.Enrich), the arithmetic of f32 and f64 on scores
-- (Api.Embed.Local, Store.Semantic.Search, Api.Search.Rank), FTS5 with its bm25 and snippets
-- (Store.Ukg.Hits), base64 and the UUID parser (Api.Search, Api.Routes), the order in which a
-- HashMap is run through (Api.Search.Handler), what Windows answers about the desktop, its
-- processes and its windows (Client.Meta, Client.Dxgi, Client.Audio), the JPEG encoder, the OCR
-- engine and the network (Client.Run, Client.Session, Client.Connect), the registry's writes and
-- the UUID parser (Client.Config.Registry).
--
-- Not modelled: the creation of capture and audio devices, the OCR engine and the service of the
-- client, which only call Windows; the channels between the threads of the client and the
-- intervals of its timers; TLS, the broker's configuration files and processes, which are input
-- and output; the Python service and the web page; failures of SQLite, but for foreign keys, and
-- of the file system; the router of the API server, and the JSON of its answers.
pub mod Prelude
pub mod Proto
pub mod Store
pub mod Client
pub mod Mock
pub mod Broker
pub mod Api
mod Tests
