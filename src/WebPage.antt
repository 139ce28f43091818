-- ===== src/WebPage.antt =====
-- Backup/Adil Project/Documents/Arduino_codes/Final_code_including_web_server_data_V5/
-- Final_code_including_web_server_data_V5.ino: the sketch's web page, which it serves in `loop`, in
-- `EarthQuakeCalculate` and in `calibration`.
pub mod Requests
use live_streamer.Common.{
  ℕ, ◌-◌, ◌++◌, List, [], ◌∷◌, take, Bool, true, false, ltb, ◌&&◌, Option, none, some, ⊤, ◌==◌,
  if◌then◌else◌,
}
use live_streamer.Text.{Text, codes}
use live_streamer.Machine.{M, pure, wait, gets, modify, ◌>>=◌, ◌>>◌}

-- The values of the page as `String` prints them.
pub record Shown : Type 0 where
  pub ac_x : Text
  pub ac_y : Text
  pub filter_value_z : Text
  pub system_perfect : Text
  pub system_mal : Text
  pub temp_alarm : Text
  pub earthquake_alarm : Text
  pub detail : Text

-- `s.toCharArray(buf, size)`: at most size - 1 bytes and a NUL.
abbrev pub to_char_array : Text → ℕ → Text
to_char_array s size = take (size - 1) s

-- The three places of the code that serves the page, which are copies but for a key of the map and
-- an assignment.
pub data Place : Type 0 where
  in_loop in_calculate in_calibration : Place

unfoldable pub detail_key : Place → Text
detail_key in_loop = codes "EarthQuake Detail"
detail_key in_calculate = codes "EarthQuake_Detail"
detail_key in_calibration = codes "EarthQuake_Detail"

-- The keys and values of `hashMap`, once the arrays were filled.
unfoldable pub hash_map : Place → Shown → List (Text × Text)
unfolding detail_key
hash_map place v =
    (codes "AcX", to_char_array v.ac_x 16)
    ∷ (codes "AcY", to_char_array v.ac_y 16)
    ∷ (codes "AcZ", to_char_array v.filter_value_z 16)
    ∷ (codes "System Running Perfectly", to_char_array v.system_perfect 2)
    ∷ (codes "System Malfunctioning Alarm", to_char_array v.system_mal 2)
    ∷ (codes "Temperature Alarm", to_char_array v.temp_alarm 2)
    ∷ (codes "EarthQuake Alarm", to_char_array v.earthquake_alarm 2)
    ∷ (detail_key place, to_char_array v.detail 500)
    ∷ []

abbrev pub newline : ℕ
newline = 10

abbrev pub carriage_return : ℕ
carriage_return = 13

-- What `println` sends of a text.
unfoldable pub line : Text → Text
line t = t ++ carriage_return ∷ newline ∷ []

-- The rows of the page.
unfoldable pub rows : List (Text × Text) → Text
rows [] = []
rows ((key, value) ∷ rest) = key ++ (codes "=" ++ (value ++ (codes "=;" ++ rows rest)))

unfoldable pub response : List (Text × Text) → Text
unfolding line
response entries =
    line (codes "HTTP/1.1 200 OK")
    ++ (line (codes "Content-Type: text/html")
        ++ (line (codes "Connection: close")
            ++ (line (codes "Refresh: 1")
                ++ (line [] ++ (rows entries ++ line (codes "</html>"))))))

-- What a turn of the loop finds: the client is gone, has sent nothing, or has sent a byte.
pub data Poll : Type 0 where
  gone silent : Poll
  char : ℕ → Poll

-- The client, `currentLineIsBlank`, and the globals that serving may change.
pub record Serving : Type 0 where
  pub current_line_is_blank : Bool
  pub received : Text
  pub replies : List Text
  pub stopped : Bool
  pub count2 : ℕ
  pub system_perfect : Bool
  pub system_mal : Bool

-- The assignment that `EarthQuakeCalculate` makes in the middle of its answer.
unfoldable pub on_answer : Place → Serving → Serving
on_answer in_loop s = s
on_answer in_calculate s =
    if ltb s.count2 30 then record s { system_perfect = true; system_mal = false } else s
on_answer in_calibration s = s

-- A byte that does not end the request.
unfoldable pub next_blank : ℕ → Bool → Bool
next_blank c blank = if c == newline then true else if c == carriage_return then blank else false

unfoldable pub next_line : ℕ → M Serving ⊤
unfolding next_blank
next_line c =
    modify (λ s. record s { current_line_is_blank = next_blank c s.current_line_is_blank })

-- `while (client.connected())`, over what its turns find.
unfoldable pub request_loop : Place → List (Text × Text) → List Poll → M Serving ⊤
unfolding next_line on_answer
request_loop place entries [] = wait
request_loop place entries (gone ∷ polls) = pure tt
request_loop place entries (silent ∷ polls) = request_loop place entries polls
request_loop place entries (char c ∷ polls) =
    let more = next_line c >> request_loop place entries polls in
    modify (λ s. record s { received = s.received ++ c ∷ [] })
    >> (gets (λ s. s.current_line_is_blank) >>= λ blank.
        if c == newline && blank
        then modify (λ s. on_answer place (record s { replies = response entries ∷ s.replies }))
        else more)

-- What follows the map, with the client of `server.available()`, if there is one.
unfoldable pub serve_page : Place → Shown → Option (List Poll) → M Serving ⊤
serve_page place v none = pure tt
serve_page place v (some polls) = do
  modify (λ s. record s { current_line_is_blank = true })
  request_loop place (hash_map place v) polls
  modify (λ s. record s { stopped = true })

-- The page of a round of `calibration`, whose count of rounds is given.
unfoldable pub calibration_page : ℕ → Shown → Option (List Poll) → M Serving ⊤
unfolding serve_page
calibration_page count5 v client =
    if ltb 30 count5
    then (do
      modify (λ s. record s { system_mal = true; system_perfect = false })
      serve_page in_calibration (record v { system_mal = codes "1"; system_perfect = codes "0" })
          client)
    else pure tt
