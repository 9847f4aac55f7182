-- ===== src/Lib.antt =====
-- bimpc: the MessagePack codecs of bi-rpc.
--
-- A birpc endpoint talks to its peer through a codec, which it asks to read and to write messages.
-- The codecs of generic, websocket and redis differ in the transport only. All of them turn a
-- birpc.Message into a wire message (mpc.ToWire), write that as MessagePack, and on the other side
-- decode it into the codec's own wire message and hand the payloads on to birpc (mpc.FromWire). The
-- wire messages to be written come from a pool, and their payload buffers are used again and again.
-- The payloads themselves are what the generated methods of their types make of them: maps from field
-- names to values, as in the messages of the chat example and of the codecs' tests. The chat's server
-- gives each browser an endpoint over a websocket, and pumps what is broadcast on a topic at it.
--
-- Which file models what:
--   Memory       the store: Go's byte arrays, numbered; a slice is an array and a length, and its
--                capacity is what the array has. No slice of the code starts behind its array's
--                first byte, so a slice has no offset.
--   Action       methods that return an error: a do block stops at the first error and keeps the state
--                that the failing call has left.
--   Msgp         github.com/tinylib/msgp, as records of parameters, and the laws that the proofs rely on.
--                Decoder is for msgp.Reader and for the functions on byte slices, Encoder for
--                msgp.Writer, Appender for the functions that append.
--   Mpc          mpc/mpc.go: Error, Message, the pool with GetMessage and PutMessage, ToWire, marshal,
--                FromWire, handOver, keep, Unmarshal.
--   Mpc/Gen      mpc/mpc_gen.go: the generated DecodeMsg, EncodeMsg, MarshalMsg, UnmarshalMsg, Msgsize.
--   Shared       what the codecs have in common: the store with the pool, and the bodies that
--                ReadMessage and WriteMessage share.
--   Endpoint     a codec as birpc sees it, and sequences of calls.
--   Generic      generic/generic.go: the codec over a connection. Generic/Concurrent: any number of
--                goroutines in WriteMessage at a time.
--   Websocket    websocket/websocket.go: the codec over a websocket, one frame for a message.
--   Redis        redis/redis.go: the codec over two pub-sub channels, and its subscription.
--                Redis/Concurrent: a goroutine in ReadMessage while others call Close.
--                Redis/Protocol: the calls about a subscription, in the order that they are due.
--   Maps         what the methods that msgp generates for a struct have in common: the loop over the
--                entries of a map, which skips unknown keys. Maps/Schema describes a type by its fields,
--                and Maps/Read is the loop on a well-formed map.
--   Chat         examples/chat/main.go: the messages; Chat/Gen examples/chat/main_gen.go: their generated
--                methods; Chat/Server: Message, and the life of a connection in serve and in the
--                goroutine that it starts; Chat/Server/Room: all connections of a server;
--                Chat/Delivery: a broadcast over the websocket codec; Chat/Main: main and index.
--   Testmsg      internal/testmsg/testmsg.go: the messages and the service of the codecs' tests;
--                Testmsg/Gen internal/testmsg/testmsg_gen.go; Testmsg/Rpc: Add over the generic codec.
--   Sample       parameters that meet all laws, for the tests.
--   Tests        the theorems at concrete inputs.
--
-- The proofs stand in the modules under each of these: Mpc/HandOver, Mpc/FromWire and Mpc/ToWire
-- follow a payload through the store, Mpc/Moves and Shared/Reach say which arrays an operation may
-- write to, Shared/Flight and Shared/Beyond what belongs to a message between GetMessage and
-- PutMessage, Mpc/Gen/Decode, Encode, Same, Frame and Keep are about the generated code, Read, Write
-- and Trace of a codec about its methods, Stream of a codec about sequences of messages,
-- Generic/Values and Websocket/Values about values that are sent as payloads, Chat/Gen/OfIncoming and
-- the like about the generated methods of one type, Chat/Server/Invariant, Line, Order, Life and Stretch
-- about all turns of a connection, Redis/Kind about the kinds of what is popped, Redis/Lifecycle
-- about setupSubscription, Redis/Order about the pool.
--
-- How state and operations correspond: a method takes the state of its receiver, birpc's message and
-- what is shared, and returns its error, nil as `none`, with the new state. The names are those of
-- the code, in lower case with underscores. A method of a codec is one function, which is what a call
-- does that no other interrupts. WriteMessage calls GetMessage, ToWire and PutMessage outside its
-- mutex: Generic/Concurrent takes it apart into these and the part under the mutex, and a run is any
-- list of such steps of any goroutines. ReadMessage holds its mutex throughout. The Close of redis
-- takes none: Redis/Concurrent takes ReadMessage, setupSubscription and Close apart into steps, each
-- with one read or write of c.sub and the call of the client that goes with it, and any number of
-- goroutines may be in Close. A connection of the chat is run by two goroutines, serve and its pump;
-- a turn takes one of them to its next call of a library or of the channel, and a run is any list of
-- their turns and of calls of Message by clients. The room is a connection for each browser, and what
-- is said in it is a turn of each. What the code asks of the endpoint and of the websocket is
-- recorded: the calls of Go, in order, and that of Close. An endpoint may send what it is handed in
-- another order.
--
-- Bounds: ids are below 2^64 and texts shorter than 2^32, which is what MessagePack can carry; the
-- statements that need it say so. Maps have at most 15 entries and keys of less than 32 bytes, the
-- forms that the generated methods write. An int64 is its bit pattern, below 2^64. The pump needs no
-- fuel: a turn in which it waits changes nothing. The loop of redis' ReadMessage may go on for as
-- long as the server sends no message, so it takes fuel, one for each round; one round more than
-- there are values to skip is enough. All other loops are over lists.
--
-- Parameters: msgp, gorilla/websocket, tideland/golib/redis and tv42/topic, the connection, what
-- MarshalMsg and UnmarshalMsg of a caller's type do, and which message sync.Pool gives out, the
-- argument `pick`: a number out of range is a new message. Of the topic, which other connections
-- share, the model has what it does to the channel of one connection.
--
-- Not modelled: the log of the chat's server, the texts of its page and style sheet, and the browser
-- side; how net/http finds the handler of a request; races within one step of a goroutine, for which
-- the Go memory model promises nothing; what flag.Parse does with the arguments, of which the model
-- has what it returns or that it stops the process; what the redis client does on the connection when
-- a subscription is closed; the tests and benchmarks.
pub mod Common
pub mod Action
pub mod Memory
pub mod Msgp
pub mod Mpc
pub mod Shared
pub mod Endpoint
pub mod Generic
pub mod Websocket
pub mod Redis
pub mod Maps
pub mod Chat
pub mod Testmsg
pub mod Sample
pub mod Tests
