-- ===== src/System/Messages.antt =====
-- What json-c reads from the messages that the camera and the server print.
use live_streamer.Common.{
  ◌+◌, ◌≤◌, ◌<◌, ◌≡◌, ◌≢◌, [], ◌∷◌, ◌++◌, length, some, none, false, ⊤, arith, length-append,
}
use live_streamer.Text.{Text, IsCString, IsCString-append, codes, text_eq}
use live_streamer.Json.{Json}
use live_streamer.StreamerServer.Comm.{action_text}
use live_streamer.StreamerClient.Comm.{status_text}

-- Printable ASCII without a quote and a backslash: what stands for itself in a JSON string.
abbrev pub IsPlain : Text → Type 0
IsPlain [] = ⊤
IsPlain (c ∷ s) = (32 ≤ c) × (c < 127) × (c ≢ 34) × (c ≢ 92) × IsPlain s

pub IsPlain-IsCString : (t : Text) → IsPlain t → IsCString t
IsPlain-IsCString [] h = tt
IsPlain-IsCString (c ∷ t) h = (omega (arith, h.0), IsPlain-IsCString t h.4)

-- The text parses to an object with a stream and one more member.
pub record Reads {Obj : Type 0} (j : Json Obj) (t k id v : Text) : Type 0 where
  pub object : Obj
  pub parsed : j.tokener_parse t ≡ some object
  pub has_id : j.get_ex object (codes "streamId") ≡ some (some id)
  pub has_value : j.get_ex object k ≡ some (some v)
  pub has_no_other :
      (q : Text)
      → text_eq (codes "streamId") q ≡ false
      → text_eq k q ≡ false
      → j.get_ex object q ≡ none

-- JSON texts of two members with plain values are read as what they say.
pub record ReadsMessages {Obj : Type 0} (j : Json Obj) : Type 0 where
  pub reads_status :
      (id v : Text) → IsPlain id → IsPlain v → Reads j (status_text id v) (codes "status") id v
  pub reads_action :
      (id v : Text) → IsPlain id → IsPlain v → Reads j (action_text id v) (codes "action") id v

pub length-status_text : (id v : Text) → length (status_text id v) ≡ length id + length v + 32
unfolding status_text codes
length-status_text id v = omega (
  arith,
  length-append id (codes "\",\"status\" : \"" ++ (v ++ codes "\"}")),
  length-append v (codes "\"}"),
)

pub length-action_text : (id v : Text) → length (action_text id v) ≡ length id + length v + 32
unfolding action_text codes
length-action_text id v = omega (
  arith,
  length-append id (codes "\",\"action\" : \"" ++ (v ++ codes "\"}")),
  length-append v (codes "\"}"),
)

module _ (id v : Text) (plain_id : IsCString id) (plain_v : IsCString v) where
  pub status_text-IsCString : IsCString (status_text id v)
  unfolding status_text codes
  status_text-IsCString = IsCString-append (codes "{ \"streamId\" : \"") _ (omega arith) (
      IsCString-append id _ plain_id (
        IsCString-append (codes "\",\"status\" : \"") _ (omega arith)
          (IsCString-append v _ plain_v (omega arith))))

  pub action_text-IsCString : IsCString (action_text id v)
  unfolding action_text codes
  action_text-IsCString = IsCString-append (codes "{ \"streamId\" : \"") _ (omega arith) (
      IsCString-append id _ plain_id (
        IsCString-append (codes "\",\"action\" : \"") _ (omega arith)
          (IsCString-append v _ plain_v (omega arith))))
