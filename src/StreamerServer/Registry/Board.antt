-- ===== src/StreamerServer/Registry/Board.antt =====
-- What StreamerServer promises, without its files, arrays and JSON: a board that shows a status and
-- an action for each stream. How the status files represent the board.
use live_streamer.Common.{
  ◌≤◌, ◌≡◌, ◌≢◌, refl, sym, subst, false, Bool-cases, Option, none, some, List, [], ◌∷◌, length,
  inl, inr, if◌then◌else◌,
}
use live_streamer.Text.{Text, IsCString, codes, text_eq, text_eq_refl, text_eq_ne, eq_of_text_eq}
use live_streamer.Json.{Json}
use live_streamer.Files.{Files, write}
use live_streamer.StreamerServer.Json.{status_key, action_key, off, live, address}
use live_streamer.StreamerServer.Json.Address.{address_injective}
use live_streamer.StreamerServer.Json.Effect.{fresh, current, current-write, opened}
use live_streamer.StreamerServer.Comm.{done, action_text}
use live_streamer.StreamerServer.Comm.Reply.{accepts}
use live_streamer.StreamerServer.Player.{status_text}

pub record Post : Type 0 where
  pub status : Text
  pub action : Text

abbrev pub Board : Type 0
Board = Text → Post

-- A stream that nobody has named yet is off and shall be live.
unfoldable pub new_board : Board
new_board id = record { status = off; action = live }

unfoldable pub pin : Text → Post → Board → Board
pin id p b q = if text_eq id q then p else b q

-- A camera connects, or reports the status of a stream; a player asks for the status of a stream, by
-- the action "status", or for an action; all streams are reset.
pub data Input : Type 0 where
  arrival : Input
  report ask : Text → Text → Input
  reset : Input

unfoldable pub next_board : Input → Board → Board
next_board arrival b = b
next_board (report id status) b =
    let action = (b id).action in
    pin id (record { status = status; action = if accepts status action then done else action }) b
next_board (ask id action) b =
    if text_eq action (codes "status")
    then b
    else pin id (record { status = (b id).status; action = action }) b
next_board reset b = λ id. record { status = off; action = (b id).action }

-- The answer to an input, put before the earlier ones.
unfoldable pub with_answer : Input → Board → List Text → List Text
with_answer arrival b earlier = earlier
with_answer (report id status) b earlier =
    (if accepts status (b id).action then codes "ACK" else action_text id (b id).action) ∷ earlier
with_answer (ask id action) b earlier =
    (if text_eq action (codes "status") then status_text id (b id).status else codes "ACK")
    ∷ earlier
with_answer reset b earlier = earlier

-- The board, and the answers, after inputs of which the newest comes first.
unfoldable pub board_after : List Input → Board
board_after [] = new_board
board_after (i ∷ is) = next_board i (board_after is)

unfoldable pub answers_to : List Input → List Text
answers_to [] = []
answers_to (i ∷ is) = with_answer i (board_after is) (answers_to is)

-- Names that have a status file of their own, and words that fit the arrays with them.
pub record IsName (id : Text) : Type 0 where
  pub is_c_string : IsCString id
  pub is_short : length id ≤ 51

pub record IsWord (v : Text) : Type 0 where
  pub is_c_string : IsCString v
  pub is_short : length v ≤ 100

module _ {Obj : Type 0} ⦃j : Json Obj⦄ where
  -- An object shows a post.
  pub record Shows (o : Obj) (p : Post) : Type 0 where
    pub has_status : j.get_ex o status_key ≡ some (some p.status)
    pub has_action : j.get_ex o action_key ≡ some (some p.action)
    pub status-IsWord : IsWord p.status
    pub action-IsWord : IsWord p.action

  -- The files show a board.
  abbrev pub ShowsBoard : Files Obj → Board → Type 0
  ShowsBoard f b = (id : Text) → IsName id → Shows (current f id) (b id)

  -- The record of a stream after another stream's file was written.
  current-write_other :
      (f : Files Obj) (id q : Text) (o : Obj)
      → IsName id
      → IsName q
      → text_eq id q ≡ false
      → current (write f (address id) o) q ≡ current f q
  unfolding current
  current-write_other f id q o n m other =
      let apart : address id ≢ address q = λ e.
        let same = address_injective id q n.is_short m.is_short e in
        cc (text_eq_refl id, subst (λ x. text_eq id x ≡ false) (sym same) other) in
      rw (current, text_eq_ne (address id) (address q) apart)

  pub write-ShowsBoard :
      (f : Files Obj) (b : Board) (id : Text) (o : Obj) (p : Post)
      → IsName id
      → Shows o p
      → ShowsBoard f b
      → ShowsBoard (write f (address id) o) (pin id p b)
  unfolding pin
  write-ShowsBoard f b id o p n shows h q m = elim (Bool-cases (text_eq id q)) [
    | inl e ↦
        let same = eq_of_text_eq id q e in
        rw e (
          subst (λ x. Shows (current (write f (address id) o) x) p) same
            (rw (current-write f id o) shows))
    | inr e ↦ rw (e, current-write_other f id q o n m e) (h q m)
  ]

  pub current-some :
      (f : Files Obj) (id : Text) (o : Obj) → f.at (address id) ≡ some o → current f id ≡ o
  unfolding current
  current-some f id o e = rw (current, e)

  pub current-fresh :
      (f : Files Obj) (id : Text) → f.at (address id) ≡ none → current f id ≡ fresh id
  unfolding current
  current-fresh f id e = rw (current, e)

  -- Making sure of a record does not change the board.
  pub opened-ShowsBoard :
      (f : Files Obj) (b : Board) (id : Text)
      → IsName id
      → ShowsBoard f b
      → ShowsBoard (opened f id) b
  unfolding opened
  opened-ShowsBoard f b id n h q m = go (f.at (address id)) refl
    where
      go : (x : Option Obj) → f.at (address id) ≡ x → Shows (current (opened f id) q) (b q)
      go none e =
          rw (opened, e)
            (elim (Bool-cases (text_eq id q)) [
              | inl same ↦
                  subst (λ x. Shows (current (write f (address id) (fresh id)) x) (b x))
                    (eq_of_text_eq id q same)
                    (rw (current-write f id (fresh id), sym (current-fresh f id e)) (h id n))
              | inr other ↦ rw (current-write_other f id q (fresh id) n m other) (h q m)
            ])
      go (some o) e = rw (opened, e) (h q m)
