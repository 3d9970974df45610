-- ===== src/Lib.antt =====
-- secupload: a secure upload service in which clients reach a server through proxies, every message
-- is a signed envelope, and every identity rotates its credentials through a window of three
-- versions.
--
-- The parts and the files that model them:
-- - shared/sih_shared/credential_state.py: Rotation models the class RotationEngine, one function for
--   each method, and Successor the payload that authorizes a new credential. A method takes the
--   engine and returns its result or its exception beside the engine it leaves. Rotation/Counts,
--   Valid and Invariant hold the well-formedness of an engine; Commands any sequence of calls;
--   Edges, Lifecycle, Promotion, Authentication, Submission, Acceptance, Waiting and Uniqueness what
--   the calls guarantee.
-- - shared/sih_shared/models.py and config.py: Models.
-- - shared/sih_shared/codec.py: Codec/Encoder and Codec/Decoder, over Codec/Digits (big-endian
--   numbers and two's complement) and Codec/Utf8 (the strict UTF-8 of Python). Codec/Mirrors relates
--   a writer to its reader, field by field. Codec/Text has what Python's str, int, hex, fromhex and
--   uuid do to the texts of the key files, and Codec/KeyFile the keys in them.
-- - shared/sih_shared/protocol.py: Protocol, with a child for the codes, the envelope, the associated
--   data, the messages and the registry snapshot.
-- - shared/sih_shared/crypto.py: Crypto. The package cryptography is the record Primitives, an
--   argument of everything that signs, verifies or encrypts.
-- - shared/sih_shared/replay.py: Replay.
-- - server/sih_server/database.py and audit.py: Server/Database, the tables as lists of rows.
-- - server/sih_server/registry.py: Server/Registry, and Server/Registry/Enrollment for the tokens.
--   It loads an engine of Rotation from the rows, runs one of its methods, and saves the rows.
--   Registry/Rows, Persistence, Saving, Owners and Commits relate the rows to the engine that is read
--   from them, Refinement a transition of the registry to a call of that engine;
--   Soundness and Recovery take every write of the registry together.
-- - server/sih_server/auth.py: Server/Auth, which asks the replay cache, the registry and the envelope.
-- - server/sih_server/authorization.py: Server/Authorization.
-- - server/sih_server/objects.py: Server/Objects, the rows of objects and their files.
-- - server/sih_server/identity.py: Server/Identity, the server's own credentials, with the database and
--   the key file that it writes.
-- - server/sih_server/tunnel2.py: Server/Tunnel2, the handlers of application requests, and what
--   encrypts their answers; it calls the permission check and the object store. Server/Connection is
--   the class _Connection over one state of all that a connection shares: Control and Relay are its
--   channels, Loop its loop over frames, Answers the envelopes that it signs, Silence what a message
--   leaves that is not authenticated, Authority what one reaches that is.
-- - client/sih_client/identity.py, session.py and api.py: Client/Identity, Client/Session (with
--   Client/Session/Control for the control channel) and Client/Api. Client/EndToEnd and Client/Chunks
--   put the client and the server together, Client/Admission the client, the proxy and the server,
--   and Client/Api/Storing the loops of the client and the server's handlers of chunks.
-- - proxy/sih_proxy/cache.py and tunnel.py: Proxy. proxy/sih_proxy/identity.py differs from the
--   client's identity in the kind that a token's identity is derived for, which is a setting there.
-- - shared/sih_shared/framing.py: Framing.
-- - Base holds what the modules share: tests on numbers, lists, results and Python's dicts.
--   Examples runs the theorems on concrete data.
--
-- A Python exception is a value of Base/Result, with its code where it carries one. A uuid is its
-- 128-bit number; encoding a larger number is an error. Times are natural numbers, the server's
-- clock in seconds. The loops that read a connection run on fuel, one more than the bytes that
-- come, as each frame takes bytes; those that write and read an object on one more than its bytes,
-- as each chunk has one; and the digits of a number on one more than the number. The other loops
-- go through a list.
--
-- Arguments of the model, as their code is not in the repository: the primitives of the package
-- cryptography, SHA-256, the random tokens, keys and nonces, the order in which Python goes
-- through a set, and the clock. The texts of the messages that exceptions carry are an argument
-- too, since the model's exceptions have their codes only. What one call or one frame draws of
-- these is one record. A transaction of SQLAlchemy is the database before it or after it; that a
-- unique column finds at most one row is read as finding the first.
--
-- Not modelled: as input and output, TLS, sockets and threads, the web layers, configuration and
-- start-up. A file of keys or of an identity is its JSON value, with the texts of numbers, keys and
-- statuses in it; a value of another shape than a missing member, and an integer that is written
-- with anything but ASCII digits, are left out. Locks are left out with the threads.
pub mod Base
pub mod Client
pub mod Codec
pub mod Crypto
pub mod Examples
pub mod Framing
pub mod Models
pub mod Protocol
pub mod Proxy
pub mod Replay
pub mod Rotation
pub mod Server
pub mod Successor
