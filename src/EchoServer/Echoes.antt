-- ===== src/EchoServer/Echoes.antt =====
-- What the echo server writes in the whole of its run, and when it ends.
use live_streamer.Common.{
  ℕ, ◌≡◌, refl, List, [], ◌∷◌, ◌++◌, Bool, true, false, Option, none, some, if◌then◌else◌, arith,
  take, length, ⊤,
}
use live_streamer.Common.Int.{ℤ}
use live_streamer.Text.{Text, c_string, IsCString, c_string_terminated}
use live_streamer.Machine.{ok, waiting}
use live_streamer.EchoServer.{
  Reason, Event, int_handler, websocket_write_back, ws_service_callback, service_loop,
}

take-c_string : (str : List ℕ) → take (length (c_string str)) str ≡ c_string str
unfolding c_string
take-c_string [] = refl
take-c_string (c ∷ str) = ground (arith, take-c_string str)

-- No message comes without its bytes.
abbrev pub HasBytes : List Event → Type 0
HasBytes [] = ⊤
HasBytes (Event.callback Reason.receive none ∷ es) = ⊥
HasBytes (_ ∷ es) = HasBytes es

-- The texts of the messages before the process is told to end.
unfoldable pub messages : List Event → List Text
messages [] = []
messages (Event.sigint ∷ es) = []
messages (Event.callback Reason.receive (some str) ∷ es) = c_string str ∷ messages es
messages (Event.callback _ _ ∷ es) = messages es

unfoldable pub interrupted : List Event → Bool
interrupted [] = false
interrupted (Event.sigint ∷ es) = true
interrupted (Event.callback _ _ ∷ es) = interrupted es

-- The texts of a list on top of what is there, its last one newest.
unfoldable pub reverse_onto : List Text → List Text → List Text
reverse_onto [] log = log
reverse_onto (t ∷ ts) log = reverse_onto ts (t ∷ log)

service_loop_destroyed :
    (wsi : Option ℕ) (n : ℤ) (es : List Event) (log : List Text)
    → service_loop wsi n es (record { destroy_flag = true; log = log })
      ≡ (ok tt, record { destroy_flag = true; log = log })
unfolding service_loop
service_loop_destroyed wsi n [] log = refl
service_loop_destroyed wsi n (Event.sigint ∷ es) log = refl
service_loop_destroyed wsi n (Event.callback r str ∷ es) log = refl

-- On an open connection the server writes back the text of each message, up to its first NUL, in
-- the order in which the messages came, until the process is interrupted; the loop ends exactly if
-- it is interrupted, and waits otherwise.
pub service_loop_echoes :
    (wsi : ℕ) (n : ℤ) (es : List Event) (log : List Text)
    → HasBytes es
    → service_loop (some wsi) n es (record { destroy_flag = false; log = log }) ≡ (
      if interrupted es then ok tt else waiting,
      record { destroy_flag = interrupted es; log = reverse_onto (messages es) log },
    )
unfolding service_loop ws_service_callback websocket_write_back int_handler messages interrupted
    reverse_onto
service_loop_echoes wsi n [] log h = refl
service_loop_echoes wsi n (Event.sigint ∷ es) log h = service_loop_destroyed (some wsi) n es log
service_loop_echoes wsi n (Event.callback Reason.established str ∷ es) log h =
    service_loop_echoes wsi n es log h
service_loop_echoes wsi n (Event.callback Reason.receive none ∷ es) log h = absurd h
service_loop_echoes wsi n (Event.callback Reason.receive (some str) ∷ es) log h =
    rw (take-c_string str) (service_loop_echoes wsi n es (c_string str ∷ log) h)
service_loop_echoes wsi n (Event.callback Reason.closed str ∷ es) log h =
    service_loop_echoes wsi n es log h
service_loop_echoes wsi n (Event.callback Reason.other str ∷ es) log h =
    service_loop_echoes wsi n es log h

-- Messages that are stored with a NUL behind them, and any bytes behind that.
unfoldable pub arrivals : List Text → List ℕ → List Event
arrivals [] rest = []
arrivals (t ∷ ts) rest = Event.callback Reason.receive (some (t ++ 0 ∷ rest)) ∷ arrivals ts rest

abbrev pub AreCStrings : List Text → Type 0
AreCStrings [] = ⊤
AreCStrings (t ∷ ts) = IsCString t × AreCStrings ts

HasBytes-arrivals : (ts : List Text) (rest : List ℕ) → HasBytes (arrivals ts rest)
unfolding arrivals
HasBytes-arrivals [] rest = tt
HasBytes-arrivals (t ∷ ts) rest = HasBytes-arrivals ts rest

messages-arrivals :
    (ts : List Text) (rest : List ℕ) → AreCStrings ts → messages (arrivals ts rest) ≡ ts
unfolding messages arrivals
messages-arrivals [] rest h = refl
messages-arrivals (t ∷ ts) rest h =
    rw (c_string_terminated t rest h.0, messages-arrivals ts rest h.1) refl

interrupted-arrivals : (ts : List Text) (rest : List ℕ) → interrupted (arrivals ts rest) ≡ false
unfolding interrupted arrivals
interrupted-arrivals [] rest = refl
interrupted-arrivals (t ∷ ts) rest = interrupted-arrivals ts rest

-- Texts without a NUL inside come back as they were sent, if each arrives with a NUL behind it,
-- whatever stands behind that.
pub arrivals_come_back :
    (wsi : ℕ) (n : ℤ) (ts log : List Text) (rest : List ℕ)
    → AreCStrings ts
    → service_loop (some wsi) n (arrivals ts rest) (record { destroy_flag = false; log = log })
      ≡ (waiting, record { destroy_flag = false; log = reverse_onto ts log })
arrivals_come_back wsi n ts log rest h = ground (
  arith,
  service_loop_echoes wsi n (arrivals ts rest) log (HasBytes-arrivals ts rest),
  messages-arrivals ts rest h,
  interrupted-arrivals ts rest,
)
