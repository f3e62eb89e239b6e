-- ===== src/Lib.antt =====
-- Dojjo shares one jj repository between machines through a sync server. A client walks its local
-- repository, uploads by the tus protocol the files that the server's mirror lacks, and fetches the
-- files that it lacks itself, in an order in which no file comes before the files it refers to. The
-- server keeps, per dojo, the uploads in progress and the mirror.
--
-- The crates and the modules:
-- - dojjo-mirror, the rules that both sides share, is Mirror. Mirror.Path is mirror_path.rs,
--   Mirror.Exclude is mirror_exclude.rs and git_mirror_exclude.rs, Mirror.Expand is operation_expand.rs,
--   and mirror_apply_order.rs is Mirror.Kahn (`kahn_toposort`), Mirror.Operation (the identifiers, and
--   `Codec` and `Files` below) and Mirror.ApplyOrder (`classify_path` to `compute_mirror_apply_order`).
-- - tus-server, the protocol over any store, is Tus. Tus.Types has the requests, responses and
--   errors, Tus.Headers the headers of responses, Tus.Metadata the functions of lib.rs, Tus.Store the
--   trait `UploadStore` with the contract that its comments document, and Tus.Handler the methods of
--   `TusHandler`.
-- - sync-server is Server. Server.Store is the `impl UploadStore for FsDojoUploadStore` of
--   sync-server/src/dojo_tus_store.rs, over the upload directories of one dojo, and Server.Finalize
--   its `finalize_into_mirror`, which moves a received upload into the mirror; Server.MirrorGet is
--   sync-server/src/mirror_get.rs, Server.Manifest the building of the manifest in mirror_manifest.rs,
--   Server.Manifest.Publish its publication there and in mirror_sync_complete.rs, Server.GitRemote is
--   git_remote.rs, Server.GitHttp git_http.rs, Server.DojoId the look-up of a dojo in tus_handlers.rs,
--   and Server.Endpoints is tus_handlers.rs, the endpoints that call the
--   handler and, when an upload is complete, `finalize_into_mirror`.
-- - client is Client. Client.Manifest and Client.Fetch are client/src/manifest.rs, Client.Pull is
--   mirror_pull.rs, Client.Origin and Client.Upload are `tus_upload_bytes` of tus.rs, Client.RepoWalk is
--   repo_walk.rs, and Client.Sync is `run_for_dojo_home` of sync.rs between the calls of git: what is
--   pushed (Client.Sync.Order, Client.Sync.Up), and what is pulled, pruned and verified
--   (Client.Sync.Down). Client.Git is git_sync.rs. Client.Http is what these use of reqwest.
-- Prelude has what they share. A definition has the name of the function or type it models; the body
-- of a loop is a function of its own (`parse_segments`, `edges_of`, `relax`, `drain`, `layers_from`,
-- `get_once`, `prune_from`), and so is the part of a long function after a call (`patch_found`,
-- `append_chunk`, `patch_upload`).
--
-- `Result` has the case `panic` beside `ok` and `err`: a failed `assert!`, `expect` or index ends in it,
-- so that what is proved about a result says whether an assertion can fail. `Action` is a `Result` that
-- also changes a state; what was written before an error stays written. Text is a list of code points,
-- a file's contents a list of bytes. A `HashMap` is a function into `Option`, or a `Dict`, an association
-- list, where its entries are iterated: the order of iteration is that of the list. A `BTreeSet` is a
-- strictly increasing list. A `u64` is a number with the test that the source makes: `checked_add` for
-- instance fails from 2 ^ 64 on. A time is a number of nanoseconds, and the clock's reading is an
-- argument. The state of a client is a `Session`: the server, the manifest at hand, and the regular
-- files of the local repository by their paths.
--
-- `drain` and `expand_loop`, the only loops that are not over a list or a number, run on fuel. A round
-- of `drain` takes one node out of the queue for good, so with a round for each node the queue is empty
-- when the fuel is used up. A round of `expand_loop` takes one path from the stack, which gets each seed
-- once and each file on disk at most once, so the seeds and the files together are enough.
--
-- Parameters: `Codec` is the decoder of operation files and the printing of an identifier as hex,
-- `Files` is what reading a file returns, and `MirrorDisk` what `fs::metadata` and `fs::read` do.
-- `Net` sends a request to the server, whose state is of any type, reads JSON, and computes SHA-256 and
-- base64, and `Http` is what the server's libraries and database do: reading and checking the values of
-- headers, printing a date, base64, and finding a dojo. `Git` is what git and the disk below a git
-- directory do at the client, `Backend` what `git http-backend` does at the server, and `Serde` writes
-- and reads the published manifest. `Faults` says which calls of the file system fail while one request is served,
-- `FinalizeFaults` which fail in the move into the mirror, and `LocalFaults` which fail at the client; a
-- write that fails leaves a part of the bytes, or an empty file, and a removal that fails may have
-- removed files. The identifier that
-- `Uuid::new_v4` returns is an argument, and so is the SHA-256 of the manifest that the server builds.
--
-- An upload's identifier is taken for the name of its directory. It is one if it is a plain component of
-- a path, as those of `Uuid::new_v4` are; what is stated of uploads has this as a hypothesis (`IsPlain`).
-- The server does not check it: an identifier of a request such as `./u1` or `../mirror/x`, with its
-- slashes escaped, names another directory, and what the server does then is not modelled.
--
-- Not modelled: the routing by axum, the database, the calls of git and jj, locks and tasks, the bodies
-- of error replies, the directory trees that client and server walk (their regular files are given), the
-- normalization by jj, and the client's commands, configuration, status and debug output.
mod Prelude
pub mod Client
pub mod Mirror
pub mod Tus
pub mod Server
