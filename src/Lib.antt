-- ===== src/Lib.antt =====
-- A model of the live streamer: a server that keeps the status of the camera streams, and the
-- camera program that obeys it; a second pair of programs that update a camera's software; demos
-- of the libraries; and a monitor for earthquakes that is kept in the same repository.
--
-- The program. A camera (StreamerClient) connects to the server (StreamerServer), reports its
-- status as a JSON text, and gets back either "ACK" or the action that a player has asked for;
-- it follows the action by calls on its GStreamer pipeline and reports again, until the ACK. The
-- server keeps one file for each stream, status/<streamId>.json, with the members streamId,
-- status and action. Players ask for the status or set the action over websockets. Every thirty
-- seconds the server sets the status in all files to "off". OTAClient sends its version to
-- OTAServer, which answers that it is up to date or where the package of the newest version is.
-- TCPServer and TCPClient are the forerunners of the first pair.
--
-- The files of this library and the code:
--   Machine         how a C function ends: it returns, dereferences NULL, exits, or blocks for
--                   ever; the state it leaves comes back in every case.
--   Buffer          a char array of MAXDATASIZE bytes: memset, recv's copy, snprintf, sprintf and
--                   the store of a byte. A write outside of the array is counted, not refused.
--   Json, Files     what the programs use of json-c: the object calls as a record of operations
--                   with their documented laws, and a file system whose files hold JSON values.
--   Sockets         what recv and connect give. Listen: the accept loop of
--                   StreamerServer/src/StreamerServer.c, of which OTAServer and TCPServer have
--                   copies.
--   Endpoint        what OTAServer, OTAClient, TCPServer and TCPClient share, whose files are
--                   copies of one another: sending and receiving, and the one JSON file. Link:
--                   a client and a server that are joined.
--   OtaServer       OTAServer/src: server.c, srvrComm.c, srvrJson.c.
--   OtaClient       OTAClient/src: client.c, clientComm.c, clientJson.c.
--   Ota             a run of OTAClient joined to a connection of OTAServer.
--   TcpServer       TCPServer/src: main.c; Streamer, Player and Ota for its three servers, with
--                   Json.c in Streamer.
--   TcpClient       TCPClient/src: client.c, clientComm.c, clientJson.c.
--   Tcp             TCPClient joined to a connection of TCPServer.
--   StreamerServer  State: the globals of StreamerServer/src. Json: srvrJson.c. Comm: srvrComm.c.
--                   Player: PlayerServer.c, with startPlyrSrvr in its child Service.
--                   Threads: several connections at a time. Trigger: main.c. Registry: what the
--                   status files hold in every run of these handlers, in any order, with
--                   restarts (Runs), by a rule for calls that keep an invariant (Machine.Keeps);
--                   and the board that these handlers implement, without files, arrays and
--                   JSON (Board, Refines).
--   Streaming       StreamerClient/src/gstreamer/VA_gstreamer.c: Build has the functions that
--                   build the pipeline, Control those that run it and take it down. GStreamer's
--                   calls are a trace of events, and what they give is a parameter. Serves:
--                   these functions as the pipeline that the dialogue uses, with every way in
--                   which they end.
--   StreamerClient  State: the globals of StreamerClient/src/TCPClient, and PropJson.c; the
--                   dialogue uses the pipeline through the record Streaming, a parameter, whose
--                   functions return, fail, or block as any C function.
--                   Comm: ClientComm.c and the send and receive of Client.c. Client: the rest of
--                   Client.c.
--   WsClient        ws/client/src/client.c, with its two threads.
--   EchoServer      ws/server/src/PlayerServer.c.
--   JsonDemos       JSON: Walk has json_type.c, Entry and Objects json.c, and Objects json1.c.
--   Earthquake      EARTHQUAKE.cpp in Backup/Adil Project/Documents/EarthQuake_Monitoring_System/
--                   Final_code_including_web_server_data_V5. Offsets: the calibration, from
--                   SetOffsetOfMPU on. Report and Effects: the branches and texts of
--                   EarthQuakeUsingAccel and EarthQuakeUsingVelocity. Calculate:
--                   EarthQuakeCalculate. Monitor: the globals. Watch: setup, loop and main. The
--                   sensor (Device) and the floating-point numbers (Floats) are parameters; Ideal
--                   is a sensor without noise, Stuck one that ignores its offsets.
--   WebPage         the page that the Arduino sketch of the monitor serves at three places: the file
--                   Final_code_including_web_server_data_V5.ino in the directory of that name in
--                   Backup/Adil Project/Documents/Arduino_codes. Requests: which texts it answers.
--   FlvRecorder     Backup/Streamer/src/flv.c, a recorder of camera and microphone; its child Run
--                   has the linking, the main loop and main.
--   System          the two programs joined: what one sends is what the other receives. Request:
--                   a player's request, up to the camera's acknowledged report. Shutdown:
--                   the interrupted camera, whose answers are those of the server. Retries: the
--                   camera without a server. Unknown: an action of no meaning to the camera.
--   Examples        a JSON library by which the laws asked of json-c hold, and concrete runs.
-- A function has the name of the C function in lower case (msgParse is msg_parse, SIGAck is
-- sig_ack), with one more definition where a part of its body is named.
--
-- Conventions. A NULL pointer is none. NULL handed to %s, strcmp or gethostbyname is a fault, as
-- it is when it is dereferenced. Text is the list of its bytes. A file that cannot be read, and one
-- that holds no JSON, both give NULL. A file is known by its path as the program writes it, so two
-- paths to one file count as two; for names of streams with no slash that makes no difference, as
-- StreamerServer.Json.Address shows, which reduces a path to the names between its slashes. printf, perror and free are left out. Threads interleave
-- between calls of receive (StreamerServer.Threads), not within one.
--
-- Bounds. The loops that wait for a peer run over the list of what recv gives them, and end in
-- `waiting` when the list does; the loop of the camera that repeats stopStreaming takes a number
-- of tries, and a session a number of rounds. One try is enough for a pipeline that
-- stops, and two rounds for a session. main_loop runs over the signals that come in, the accept loop
-- over what its calls give in each turn.
--
-- json_parse takes the depth of the value as its fuel, and one more. The calibration has no bound
-- in the source and takes a number of rounds: one is enough for a sensor without noise. The means
-- are stated for any buffersize above 0, of which the program's 1000 is one. What the registers and
-- readings of the sensor hold has 16 bits; the sums of readings and the counters of loop, which
-- only reach the bounds of their types after 2 ^ 31 readings or dead rounds, are not cut off.
--
-- Not modelled: the fields of the libwebsockets context in startPlyrSrvr and in the demos' main; the
-- C++ copies wsClient and wsServer of another project's library; the shell scripts of OTA; the
-- libraries MPU6050 and I2Cdev; what is in comments in EARTHQUAKE.cpp; the sketch but for its pages;
-- everything else in Backup, which nothing builds or calls.
pub mod Common
pub mod Text
pub mod Buffer
pub mod Machine
pub mod Json
pub mod Files
pub mod Sockets
pub mod StreamerServer
pub mod StreamerClient
pub mod System
pub mod Examples
pub mod Endpoint
pub mod OtaServer
pub mod OtaClient
pub mod Ota
pub mod TcpServer
pub mod TcpClient
pub mod Tcp
pub mod Streaming
pub mod WsClient
pub mod Earthquake
pub mod EchoServer
pub mod JsonDemos
pub mod FlvRecorder
pub mod WebPage
