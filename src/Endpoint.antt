-- ===== src/Endpoint.antt =====
-- What OTAServer, OTAClient, TCPServer and TCPClient have in common: one connection, one array of
-- MAXDATASIZE bytes, and one JSON file. Their sources are copies of one another, so that the
-- functions that they share stand here once.
pub mod Frames
pub mod Link
use live_streamer.Common.{
  ℕ, ◌-◌, List, ◌∷◌, take, length, Bool, true, false, Option, none, some, ⊤, if◌then◌else◌,
}
use live_streamer.Text.{Text}
use live_streamer.Buffer.{Buffer, max_data_size, copy_in, store, memset, snprintf, text}
use live_streamer.Machine.{M, pure, exit, gets, modify, ◌>>=◌, ◌>>◌}
use live_streamer.Sockets.{Recv, failed, bytes}
use live_streamer.Json.{Json, get_string}
use live_streamer.Files.{object_add}

-- The file: it is not there, it holds no JSON text, or it holds one.
pub data Content (Obj : Type 0) : Type 0 where
  absent unreadable : Content Obj
  holds : Obj → Content Obj

pub data Event : Type 0 where
  -- `send` on a socket with the bytes handed over, `close`, and `system`.
  sent : Option ℕ → List ℕ → Event
  closed : Option ℕ → Event
  ran : Text → Event

pub record State (Obj : Type 0) : Type 0 where
  pub file : Content Obj
  -- Whether the file can be opened for writing.
  pub writable : Bool
  -- -1 is `none`.
  pub sock : Option ℕ
  pub numbytes : ℕ
  pub temp_buff : Buffer
  -- The servers keep the stream of the last message.
  pub strm_id : Option Text
  -- Whether `send` works on the connection.
  pub send_works : Bool
  -- Newest first.
  pub log : List Event

module _ {Obj : Type 0} where
  abbrev pub emit : Event → M (State Obj) ⊤
  emit e = modify (λ s. record s { log = e ∷ s.log })

  abbrev pub on_buf : (Buffer → Buffer) → M (State Obj) ⊤
  on_buf g = modify (λ s. record s { temp_buff = g s.temp_buff })

  unfoldable pub close_socket : M (State Obj) ⊤
  close_socket = do sock ← gets (λ s. s.sock); emit (closed sock)

  -- The text is put into the array without clearing it first, and a NUL is stored behind its end.
  unfoldable pub print_text : Text → M (State Obj) ⊤
  print_text t = do on_buf (snprintf max_data_size t); on_buf (store max_data_size 0)

  -- `sendData` of the servers: an error of `send` is only reported.
  unfoldable pub server_send : M (State Obj) ⊤
  server_send = do
    buf ← gets (λ s. s.temp_buff)
    sock ← gets (λ s. s.sock)
    emit (sent sock (take (max_data_size - 1) buf.cells))

  -- `sendData` of the clients: an error ends the process, and otherwise the array is cleared.
  unfoldable pub client_send : M (State Obj) ⊤
  unfolding server_send
  client_send = do
    server_send
    works ← gets (λ s. s.send_works)
    if works then on_buf (memset max_data_size) else exit 1

  -- `receiveData`: an error of `recv` ends the process.
  unfoldable pub receive_data : Recv → M (State Obj) Text
  receive_data failed = do on_buf (memset max_data_size); exit 1
  receive_data (bytes bs) = do
    on_buf (memset max_data_size)
    let copied = take (max_data_size - 1) bs
    on_buf (copy_in copied)
    modify (λ s. record s { numbytes = length copied })
    on_buf (store (length copied) 0)
    gets (λ s. text s.temp_buff)

  -- `exists`, by `fopen`.
  unfoldable pub exists : Content Obj → Bool
  exists absent = false
  exists unreadable = true
  exists (holds o) = true

  -- `json_object_from_file`
  unfoldable pub read : Content Obj → Option Obj
  read absent = none
  read unreadable = none
  read (holds o) = some o

  unfoldable pub json_to_file : Obj → M (State Obj) ⊤
  json_to_file o = modify (λ s. record s { file = if s.writable then holds o else s.file })

module _ {Obj : Type 0} ⦃j : Json Obj⦄ where
  -- `JsonFromFile` of the servers: a file that is not there counts as an empty object.
  unfoldable pub server_json : M (State Obj) (Option Obj)
  unfolding exists read
  server_json = gets (λ s. if exists s.file then read s.file else some j.new_object)

  -- `JsonFromFile` of the clients.
  unfoldable pub client_json : M (State Obj) (Option Obj)
  unfolding read
  client_json = gets (λ s. read s.file)

  -- `setJsonValue` and `getJsonValueFromFile`, with the program's `JsonFromFile`.
  unfoldable pub set_value : M (State Obj) (Option Obj) → Text → Option Text → M (State Obj) ⊤
  unfolding json_to_file object_add
  set_value json_from_file key value = do
    temp_json ← json_from_file
    temp_json ← object_add temp_json key value
    json_to_file temp_json

  unfoldable pub get_value : M (State Obj) (Option Obj) → Text → M (State Obj) (Option Text)
  get_value json_from_file key = do temp_json ← json_from_file; pure (get_string temp_json key)
