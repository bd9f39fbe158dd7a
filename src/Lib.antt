-- ===== src/Lib.antt =====
-- Verification of the TSS server: threshold ECDSA keys and signatures (package tss).
--
-- A key is generated, and a message signed, by several parties, each of which runs this server. A
-- coordinator (Manager.KeyGen, Manager.KeySign) opens a stream to every party, sends a prepare
-- message, waits until enough parties are ready, starts these, and waits for their results. A party
-- (Manager.handleKeyGen) checks the request, writes a PENDING record, runs the local party of
-- tss-lib over streams of the session, and ends its record as READY or as ERROR; for a signature
-- (Manager.handleKeySign) it reads the record instead. A validator asks a REST service about both.
-- Records are in a LevelDB database; messages are protobuf messages behind their length.
--
-- The files, and the code they model:
--   Prelude and below   shared names: byte strings, Go's value-or-error, int32, big endian numbers,
--                       list lemmas
--   Proto               tss/tss.pb.go: the messages, and the getters of TssP2PMsg
--   Storage             tss/tss_storage.go: GetKeyDataListByKeyId and the other operations over a
--                       database and a codec; Storage.Contract is the interface that the manager
--                       takes, and Storage.LevelDb fills it
--   Manager             tss/tss_manager.go: the functions that read and write key records; Manager.
--                       Lifecycle has the steps of a generation on the storage, and what is reached;
--                       Manager.Rpc has the other RPCs, and the manager's start and stop
--   P2p                 tss/tss_p2p.go: SendMsg and RecvMsg; P2p.Local is localP2PStream, over the
--                       channels of P2p.Channel; P2p.Node is LibP2PManager; P2p.StreamMap is the map
--                       of ready streams that both coordinators keep
--   KeySign             tss/tss_keysign.go: KeySign; KeySign.Run puts its loops together;
--                       KeySign.Party is handleKeySign and handleKeySign0, and
--                       KeySign.Signature is ParseSignature;
--                       KeySign.Closing has the streams that KeySign closes, KeySign.Success the calls
--                       that go well, and KeySign.Order the order of the ready streams;
--                       KeySign.Signatures puts KeySign and handleKeySign together, and
--                       KeySign.Together has a whole signature that goes well
--   Validator           validator/keygen.go and validator/keysign.go: the two validations;
--                       Validator.Fetch has the requests of validator/validator.go
--   KeyGen              tss/tss_keygen.go: KeyGen; KeyGen.Party is handleKeyGen and handleKeyGen0;
--                       KeyGen.Everyone puts the two together, and KeyGen.Together has a whole
--                       generation that goes well
--   Session             tss/tss_keygen.go and tss/tss_keysign.go: the loop of a party's session;
--                       Session.Streams is the protocol of a session, and Session.Exchange has the
--                       loops of two parties of one session
--   Server              tss/tss_manager.go: the Manager with all that it holds, and the requests that
--                       find its storage; tss/tss_validate.go
--   Startup             main.go: what main starts and stops, and its list of peers;
--                       validator/parse_priv_key.go: the private key file
--   Tests               instances of the parameters, and the theorems at concrete inputs
--
-- A `select` takes one of the channels that are ready, and goroutines run in any order: a loop is a
-- function of the list of what its `select` takes, and the theorems are about every list. Loops are
-- structural recursion on that list, so that there is no fuel; where it ends, the loop waits. Wait of a
-- sync.WaitGroup (KeySign.Run.all_done) returns where as many goroutines have ended as were added;
-- where fewer have, the call waits, and does nothing that comes behind. An
-- operation of the manager that holds its lock is one step on the storage; what other goroutines do
-- between two steps of a handler is a function in its environment.
--
-- Parameters: the LevelDB database and its iterator, which goes over its keys in ascending order
-- (Storage.External.Db), protobuf's Marshal and Unmarshal (Storage.External.Codec), tss-lib
-- (Session.TssLib, KeyGen.Party.KeyLib, KeySign.Party.SignLib), libp2p (P2p.Node.Network), the HTTP
-- client (Validator.Fetch.Http), the files and keys of Startup.KeyFiles, btcec and ecdsa,
-- strings.ToLower and bytes.EqualFold, the ids that uuid gives, and the errors of the network.
-- Integers are native naturals; int32 wraps around at 2^31, the length of a frame at 2^32. A string
-- that the code joins, splits or compares is a list of its bytes. A timestamp is its nanoseconds.
--
-- Not modelled: opening and closing the database, libp2p's host, flags, signals and the gRPC server,
-- logging, and the code that protoc generates besides the messages and their getters.

mod Prelude
pub mod Proto
pub mod Storage
pub mod Manager
pub mod P2p
pub mod Session
pub mod KeySign
pub mod KeyGen
pub mod Validator
pub mod Server
pub mod Startup
mod Tests
