-- ===== src/Examples/PlainJson.antt =====
-- A small JSON library for the examples: an object is its list of string members, and a text is
-- read as the quoted strings in it, taken in pairs. It shows that what the proofs ask of json-c
-- can be had.
use live_streamer.Common.{
  ℕ, ◌≡◌, refl, ap, ◌∙◌, List, [], ◌∷◌, ◌++◌, append_assoc, append-nil, true, false, Option, none,
  some, if◌then◌else◌, arith, ◌==◌,
}
use live_streamer.Text.{Text, codes, text_eq, text_eq_iff}
use live_streamer.Json.{Json}
use live_streamer.StreamerServer.Comm.{action_text}
use live_streamer.StreamerClient.Comm.{status_text}
use live_streamer.System.Messages.{IsPlain, ReadsMessages}

abbrev pub Members : Type 0
Members = List (Text × Text)

unfoldable pub lookup : Members → Text → Option (Option Text)
lookup [] k = none
lookup ((i, v) ∷ m) k = if text_eq i k then some (some v) else lookup m k

unfoldable pub insert : Members → Text → Text → Members
insert [] k v = (k, v) ∷ []
insert ((i, w) ∷ m) k v = if text_eq i k then (k, v) ∷ m else (i, w) ∷ insert m k v

pub lookup-insert :
    (m : Members) (k v j : Text)
    → lookup (insert m k v) j ≡ (if text_eq k j then some (some v) else lookup m j)
unfolding lookup insert
lookup-insert [] k v j = refl
lookup-insert ((i, w) ∷ m) k v j =
    ground (arith, lookup-insert m k v j, text_eq_iff i k, text_eq_iff i j, text_eq_iff k j)

-- In a string, with what was read of it, or between two.
unfoldable pub step : Option Text → ℕ → Option Text
step none c = if c == 34 then some [] else none
step (some acc) c = if c == 34 then none else some (acc ++ c ∷ [])

unfoldable pub ended : Option Text → ℕ → List Text → List Text
ended none c rest = rest
ended (some acc) c rest = if c == 34 then acc ∷ rest else rest

unfoldable pub strings : Option Text → Text → List Text
unfolding step ended
strings mode [] = []
strings mode (c ∷ s) = ended mode c (strings (step mode c) s)

unfoldable pub pairs : List Text → Members
pairs (k ∷ v ∷ rest) = (k, v) ∷ pairs rest
pairs _ = []

unfoldable pub parse : Text → Option Members
unfolding strings pairs
parse [] = none
parse (c ∷ s) = some (pairs (strings none (c ∷ s)))

-- A string without a quote is read up to its closing quote.
strings-plain :
    (acc t r : Text) → IsPlain t → strings (some acc) (t ++ 34 ∷ r) ≡ (acc ++ t) ∷ strings none r
unfolding strings
strings-plain acc [] r h = rw append-nil
strings-plain acc (c ∷ t) r h =
    let inside : (c == 34) ≡ false = ground arith in
    rw inside (
      strings-plain (acc ++ c ∷ []) t r h.4
      ∙ ap (λ x. x ∷ strings none r) (append_assoc acc (c ∷ []) t))

pub lookup-nil : (k : Text) → lookup [] k ≡ none
unfolding lookup
lookup-nil k = refl

pub parse-nil : parse [] ≡ none
unfolding parse
parse-nil = refl

instance abbrev pub plain_json : Json Members
plain_json = record {
  is_object = λ m. true;
  new_object = [];
  get_ex = lookup;
  add = insert;
  tokener_parse = parse;
  new_object-is_object = refl;
  add-is_object = λ o k v h. refl;
  get_ex-new_object = lookup-nil;
  get_ex-add = λ o k v j h. lookup-insert o k v j;
  tokener_parse-nil = parse-nil;
}

parse-status_text :
    (id v : Text)
    → IsPlain id
    → IsPlain v
    → parse (status_text id v) ≡ some ((codes "streamId", id) ∷ (codes "status", v) ∷ [])
unfolding parse status_text codes
parse-status_text id v hid hv =
    ap (λ l. some (pairs (codes "streamId" ∷ l)))
      (strings-plain [] id (codes ",\"status\" : \"" ++ (v ++ codes "\"}")) hid
        ∙ ap (λ l. id ∷ codes "status" ∷ l) (strings-plain [] v (codes "}") hv))

parse-action_text :
    (id v : Text)
    → IsPlain id
    → IsPlain v
    → parse (action_text id v) ≡ some ((codes "streamId", id) ∷ (codes "action", v) ∷ [])
unfolding parse action_text codes
parse-action_text id v hid hv =
    ap (λ l. some (pairs (codes "streamId" ∷ l)))
      (strings-plain [] id (codes ",\"action\" : \"" ++ (v ++ codes "\"}")) hid
        ∙ ap (λ l. id ∷ codes "action" ∷ l) (strings-plain [] v (codes "}") hv))

pub plain_json-ReadsMessages : ReadsMessages plain_json
unfolding lookup text_eq codes
plain_json-ReadsMessages = record {
  reads_status = λ id v hid hv. record {
    object = (codes "streamId", id) ∷ (codes "status", v) ∷ [];
    parsed = parse-status_text id v hid hv;
    has_id = refl;
    has_value = refl;
    has_no_other = λ q h k. rw (h, k);
  };
  reads_action = λ id v hid hv. record {
    object = (codes "streamId", id) ∷ (codes "action", v) ∷ [];
    parsed = parse-action_text id v hid hv;
    has_id = refl;
    has_value = refl;
    has_no_other = λ q h k. rw (h, k);
  };
}
